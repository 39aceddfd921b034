-- ===== src/Examples/Tourneys.antt =====
-- Examples of tournaments.
use nextendo_mk8d_matchmakin.Base.{
  ◌+◌, ◌%◌, ◌^◌, ◌≤◌, ◌<◌, ◌≡◌, ◌==◌, ◌&&◌, refl, if◌then◌else◌, true, none, some, [], ◌∷◌, ◌++◌,
  arith,
}
use nextendo_mk8d_matchmakin.Base.Lists.{length, contains, replicate, Distinct}
use nextendo_mk8d_matchmakin.Base.Maps.{find}
use nextendo_mk8d_matchmakin.Wire.Out.{le}
use nextendo_mk8d_matchmakin.Tournament.Blob.{Tournament, valid_stored_tournament}
use nextendo_mk8d_matchmakin.Tournament.Store.{
  Tournaments, Draw, no_tournaments, create, join, delete,
}
use nextendo_mk8d_matchmakin.Tournament.Form.{
  Form, IsForm, short, long, form_bytes, middle_bytes, payload_bytes,
}
use nextendo_mk8d_matchmakin.Tournament.Rules.{completed, create_form}
use nextendo_mk8d_matchmakin.Tournament.Runs.{
  Reach, here, next, creates, Reach-stored, delete-join_cases,
}
use nextendo_mk8d_matchmakin.Tournament.Saved.{Process, create_saved}
use nextendo_mk8d_matchmakin.Tournament.Survival.{first_process}

abbrev pub form : Form
form = record {
  id_bytes = 0 ∷ 0 ∷ 0 ∷ 0 ∷ [];
  mark_bytes = replicate 8 0;
  before = replicate 93 0;
  name = b'M' ∷ 0 ∷ 0 ∷ 0 ∷ [];
  rules = short 1 2 3 ∷ long 4 5 6 7 8 9 ∷ [];
  e1 = 0;
  e2 = 0;
  e3 = 0;
  e4 = 0;
  after = 7 ∷ 8 ∷ [];
}

form-IsForm : IsForm form
form-IsForm = record {
  id_size = refl;
  mark_size = refl;
  before_size = refl;
  name_size = omega arith;
  name_end = omega arith;
  name_even = omega arith;
  are_rules = (refl, (refl, tt));
}

abbrev pub draw : Draw
draw = record { mark = replicate 8 9; digits = replicate 12 33; created_at = 5 }

payload_small : length (payload_bytes form) ≤ 4096
unfolding form_bytes middle_bytes le
payload_small = omega arith

-- What Alice creates first.
abbrev first : Tournament
first = completed form 1000 100 draw

abbrev after_first : Tournaments
after_first = (create no_tournaments 100 (payload_bytes form) draw).0

create_form_example :
    ((create no_tournaments 100 (payload_bytes form) draw).1 ≡ some first)
    × (find 1000 after_first.by_id ≡ (if 1000 == 1000 then some first else none))
    × (after_first.next_id ≡ (1000 + 1) % 2 ^ 32)
create_form_example =
    create_form form no_tournaments 100 draw form-IsForm refl refl payload_small (omega arith) refl
      (omega arith) 1000

abbrev first_run : Reach no_tournaments after_first
first_run = next here (creates 100 (payload_bytes form) draw (omega arith))

first_found : find 1000 after_first.by_id ≡ some first
first_found = create_form_example.1

Reach-stored_example :
    (length after_first.by_id ≤ 2000)
    × (first.id ≡ 1000)
    × (valid_stored_tournament first ≡ true)
    × Distinct first.participants
    × (1000 < after_first.next_id)
Reach-stored_example = Reach-stored after_first 1000 first first_run first_found

-- Her tournament is created in the first process, and written.
abbrev with_first : Process
with_first = create_saved first_process 100 (payload_bytes form) draw

delete-join_cases_example :
    (find 1000 (delete after_first 1000 200).0.by_id
      ≡ (if 1000 == 1000 && first.owner == 200 then none else find 1000 after_first.by_id))
    × ((delete after_first 1000 200).1 ≡ (first.owner == 200))
    × (find 1000 (join after_first 1000 200).0.by_id ≡ (
        if 1000 == 1000
        then some (record first {
          participants =
              if contains first.participants 200
              then first.participants
              else first.participants ++ (200 ∷ []);
        })
        else find 1000 after_first.by_id))
    × ((join after_first 1000 200).1 ≡ true)
delete-join_cases_example = delete-join_cases after_first 1000 200 first first_run first_found 1000
