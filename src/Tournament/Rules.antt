-- ===== src/Tournament/Rules.antt =====
-- nextendo-nex/tournament.go: what creations, deletions and registrations do to the store.
use nextendo_mk8d_matchmakin.Base.{
  ℕ, ◌+◌, ◌%◌, ◌^◌, ◌≤◌, ◌<◌, ◌≡◌, refl, ◌==◌, ltb, leb, if◌then◌else◌, true, false, some, [], ◌∷◌,
  arith,
}
use nextendo_mk8d_matchmakin.Base.Lists.{length}
use nextendo_mk8d_matchmakin.Base.Maps.{find, find-insert}
use nextendo_mk8d_matchmakin.Wire.Out.{Bytes, write_u32}
use nextendo_mk8d_matchmakin.Tournament.Blob.{
  Tournament, tournament_code, code_string, valid_stored_tournament,
}
use nextendo_mk8d_matchmakin.Tournament.Store.{Tournaments, Draw, new_tournament, create}
use nextendo_mk8d_matchmakin.Tournament.Form.{
  Form, IsForm, form_bytes, payload_bytes, form_code_offset, length-form_bytes,
}
use nextendo_mk8d_matchmakin.Tournament.Stamped.{
  valid-tournament_code, stamp_tournament_form, valid_stored_form, drop_start,
}

-- The tournament that a creator is to get.
abbrev pub completed : Form → ℕ → ℕ → Draw → Tournament
completed f id owner d = record {
  id = id;
  owner = owner;
  code = tournament_code d.digits;
  mark = d.mark;
  blob = form_bytes f (write_u32 id) d.mark (code_string (tournament_code d.digits));
  participants = owner ∷ [];
  created_at = d.created_at;
}

new_tournament_form :
    (f : Form) (id owner : ℕ) (d : Draw)
    → IsForm f
    → length d.mark ≡ 8
    → length d.digits ≡ 12
    → new_tournament id owner (payload_bytes f) d ≡ completed f id owner d
unfolding new_tournament
new_tournament_form f id owner d ok hm hd = rw (
    stamp_tournament_form f id d.mark (tournament_code d.digits) ok hm
      (valid-tournament_code d.digits hd))

-- A structure of the form, at most 4096 bytes long, makes a tournament when fewer than 2000 are
-- stored and the next id is a uint32 other than 0: the creator gets its structure with that id, the
-- drawn mark and the drawn code, and nothing else changed; the tournament is stored under the id,
-- with the creator as its only participant, every other one stays, and the next id counts up.
pub create_form :
    (f : Form) (ts : Tournaments) (owner : ℕ) (d : Draw)
    → IsForm f
    → length d.mark ≡ 8
    → length d.digits ≡ 12
    → length (payload_bytes f) ≤ 4096
    → length ts.by_id < 2000
    → (ts.next_id == 0) ≡ false
    → ts.next_id < 2 ^ 32
    → (other : ℕ)
    → let t = completed f ts.next_id owner d in
      let after = create ts owner (payload_bytes f) d in
      (after.1 ≡ some t)
      × (find other after.0.by_id ≡ (if ts.next_id == other then some t else find other ts.by_id))
      × (after.0.next_id ≡ (ts.next_id + 1) % 2 ^ 32)
unfolding create
create_form f ts owner d ok hm hd small room nonzero fits other =
    let empty : Bytes = 1 ∷ 0 ∷ 0 ∷ [] in
    let t = completed f ts.next_id owner d in
    let sent = length-form_bytes f f.id_bytes f.mark_bytes empty ok.id_size ok.mark_size in
    let some_bytes : (length (payload_bytes f) == 0) ≡ false = ground (arith, sent) in
    let not_long : ltb 4096 (length (payload_bytes f)) ≡ false = ground arith in
    let not_full : leb 2000 (length ts.by_id) ≡ false = ground arith in
    let valid : valid_stored_tournament t ≡ true =
      valid_stored_form f t d.mark ok hm (valid-tournament_code d.digits hd) nonzero fits small
        refl in
    rw
      (
        some_bytes,
        not_long,
        form_code_offset f f.id_bytes f.mark_bytes empty ok ok.id_size ok.mark_size (omega arith),
        drop_start f f.id_bytes f.mark_bytes ok.id_size ok.mark_size empty,
        not_full,
        new_tournament_form f ts.next_id owner d ok hm hd,
        valid,
      )
      (refl, find-insert ts.next_id other t ts.by_id, refl)
