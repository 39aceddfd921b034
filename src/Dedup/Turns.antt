-- ===== src/Dedup/Turns.antt =====
-- server/rmc_dedup.go: one turn of the loop in `wrap`, which entries it keeps, what it answers, how many entries there are.
use nextendo_mk8d_matchmakin.Base.{
  ℕ, ◌+◌, ◌%◌, ◌^◌, ◌≤◌, ◌≡◌, refl, ◌==◌, ltb, leb, if◌then◌else◌, true, false, ◌||◌, Option, none,
  some, arith, inl, inr, Bool-cases, Option-cases,
}
use nextendo_mk8d_matchmakin.Base.Lists.{length}
use nextendo_mk8d_matchmakin.Rmc.{RmcMessage}
use nextendo_mk8d_matchmakin.Dedup.{
  Key, key_eq, Entry, in_flight, answered, Entries, find_entry, erase_entry, is_kept, prune,
  Deduplicator, waits, replays, executes, claim, turn_found, take_turn, is_token, finish_execution,
}
use nextendo_mk8d_matchmakin.Dedup.Table.{
  key_eq_sound, key_eq_refl, find-put, find-erase, length-put, length-put_found, length-erase_le,
  length-prune_le, find-prune,
}

-- The entries that a turn looks the key up in.
abbrev pub looked_up : Deduplicator → ℕ → Entries
looked_up d now =
    if (d.calls + 1) % 2 ^ 64 % 256 == 0 || leb d.max_entries (length d.entries)
    then prune now d.entries
    else d.entries

looked_up-keeps :
    (d : Deduplicator) (now : ℕ) (j : Key) (e : Entry)
    → find_entry j d.entries ≡ some e
    → is_kept now e ≡ true
    → find_entry j (looked_up d now) ≡ some e
looked_up-keeps d now j e h kept = ground (arith, find-prune now j e d.entries h kept)

claim-keeps :
    (d : Deduplicator) (key : Key) (entries : Entries) (j : Key) (e : Entry)
    → find_entry j entries ≡ some e
    → key_eq key j ≡ false
    → find_entry j (claim d key entries).0.entries ≡ some e
unfolding claim
claim-keeps d key entries j e h apart =
    ground (arith, find-put key j (in_flight d.next_token) entries)

turn_found-keeps :
    (d : Deduplicator) (key : Key) (now : ℕ) (entries : Entries) (found : Option Entry) (j : Key)
    (e : Entry)
    → find_entry key entries ≡ found
    → find_entry j entries ≡ some e
    → is_kept now e ≡ true
    → find_entry j (turn_found d key now entries found).0.entries ≡ some e
unfolding turn_found
turn_found-keeps d key now entries none j e f h kept = elim (Bool-cases (key_eq key j)) [
  | inl t ↦ absurd (missing (rw (key_eq_sound key j t) at f))
  | inr t ↦ claim-keeps d key entries j e h t
]
  where
    missing : find_entry j entries ≡ none → ⊥
    missing p = cc
turn_found-keeps d key now entries (some (in_flight token)) j e f h kept = h
turn_found-keeps d key now entries (some (answered response expires)) j e f h kept =
    elim (Bool-cases (ltb now expires)) [
      | inl live ↦ rw live h
      | inr dead ↦ elim (Bool-cases (key_eq key j)) [
        | inl t ↦ absurd (expired dead (rw (key_eq_sound key j t) at f))
        | inr t ↦
            rw dead (
              claim-keeps d key (erase_entry key entries) j e (rw (find-erase key j entries, t) h)
                t)
      ]
    ]
  where
    expired : ltb now expires ≡ false → find_entry j entries ≡ some (answered response expires) → ⊥
    expired p q = ground arith

-- A turn for any key leaves the entries that are in flight or not expired.
pub turn-keeps :
    (d : Deduplicator) (key : Key) (now : ℕ) (j : Key) (e : Entry)
    → find_entry j d.entries ≡ some e
    → is_kept now e ≡ true
    → find_entry j (take_turn d key now).0.entries ≡ some e
unfolding take_turn
turn-keeps d key now j e h kept =
    turn_found-keeps _ key now (looked_up d now) (find_entry key (looked_up d now)) j e refl
      (looked_up-keeps d now j e h kept) kept

-- A key in flight makes its calls wait.
pub turn-waits :
    (d : Deduplicator) (key : Key) (now token : ℕ)
    → find_entry key d.entries ≡ some (in_flight token)
    → (take_turn d key now).1 ≡ waits token
unfolding take_turn turn_found
turn-waits d key now token h = rw (looked_up-keeps d now key (in_flight token) h refl) refl

-- A live answer is given again.
pub turn-replays :
    (d : Deduplicator) (key : Key) (now : ℕ) (response : RmcMessage) (expires : ℕ)
    → find_entry key d.entries ≡ some (answered response expires)
    → ltb now expires ≡ true
    → (take_turn d key now).1 ≡ replays response
unfolding take_turn turn_found
turn-replays d key now response expires h live =
    rw (looked_up-keeps d now key (answered response expires) h live, live) refl

claim-executes :
    (d : Deduplicator) (key : Key) (entries : Entries) (token : ℕ)
    → (claim d key entries).1 ≡ executes token
    → find_entry key (claim d key entries).0.entries ≡ some (in_flight token)
unfolding claim
claim-executes d key entries token h =
    ground (arith, find-put key key (in_flight d.next_token) entries, key_eq_refl key)

turn_found-executes :
    (d : Deduplicator) (key : Key) (now : ℕ) (entries : Entries) (found : Option Entry) (token : ℕ)
    → (turn_found d key now entries found).1 ≡ executes token
    → find_entry key (turn_found d key now entries found).0.entries ≡ some (in_flight token)
unfolding turn_found
turn_found-executes d key now entries none token h = claim-executes d key entries token h
turn_found-executes d key now entries (some (in_flight t)) token h = cc
turn_found-executes d key now entries (some (answered response expires)) token h =
    elim (Bool-cases (ltb now expires)) [
      | inl live ↦ absurd (replayed (rw live at h))
      | inr dead ↦ rw dead (claim-executes d key (erase_entry key entries) token (rw dead at h))
    ]
  where
    replayed : replays response ≡ executes token → ⊥
    replayed p = cc

-- An execution with an entry has its own token there.
pub turn-executes :
    (d : Deduplicator) (key : Key) (now token : ℕ)
    → (take_turn d key now).1 ≡ executes token
    → find_entry key (take_turn d key now).0.entries ≡ some (in_flight token)
unfolding take_turn
turn-executes d key now token h =
    turn_found-executes _ key now (looked_up d now) (find_entry key (looked_up d now)) token h

-- At most so many entries, and the bound as it was set.
abbrev pub Bounded : ℕ → Deduplicator → Type 0
Bounded most d = (d.max_entries ≡ most) × (length d.entries ≤ most)

claim-Bounded :
    (d : Deduplicator) (key : Key) (entries : Entries) (most : ℕ)
    → d.max_entries ≡ most
    → length entries ≤ most
    → Bounded most (claim d key entries).0
unfolding claim
claim-Bounded d key entries most e h =
    ground (arith, length-put key (in_flight d.next_token) entries)

turn_found-Bounded :
    (d : Deduplicator) (key : Key) (now : ℕ) (entries : Entries) (found : Option Entry) (most : ℕ)
    → d.max_entries ≡ most
    → length entries ≤ most
    → Bounded most (turn_found d key now entries found).0
unfolding turn_found
turn_found-Bounded d key now entries none most e h = claim-Bounded d key entries most e h
turn_found-Bounded d key now entries (some (in_flight t)) most e h = (e, h)
turn_found-Bounded d key now entries (some (answered response expires)) most e h =
    elim (Bool-cases (ltb now expires)) [
      | inl live ↦ rw live (e, h)
      | inr dead ↦ rw dead (
          claim-Bounded d key (erase_entry key entries) most e
            (omega (arith, h, length-erase_le key entries)))
    ]

pub turn-Bounded :
    (d : Deduplicator) (key : Key) (now most : ℕ)
    → Bounded most d
    → Bounded most (take_turn d key now).0
unfolding take_turn
turn-Bounded d key now most b =
    turn_found-Bounded _ key now (looked_up d now) (find_entry key (looked_up d now)) most b.0
      (ground (arith, b.1, length-prune_le now d.entries))

pub finish-Bounded :
    (d : Deduplicator) (key : Key) (token : ℕ) (response : Option RmcMessage) (now most : ℕ)
    → Bounded most d
    → Bounded most (finish_execution d key token response now)
unfolding finish_execution
finish-Bounded d key token none now most b = ground (arith, b, length-erase_le key d.entries)
finish-Bounded d key token (some response) now most b =
    elim (Option-cases (find_entry key d.entries)) [
      | inl f ↦ rw f b
      | inr (e, f) ↦ elim (Bool-cases (is_token (some e) token)) [
        | inl t ↦
            rw (f, t)
              (
                b.0,
                omega (
                  arith,
                  b.1,
                  length-put_found key (answered response (now + d.ttl)) e d.entries f,
                ),
              )
        | inr t ↦ rw (f, t) b
      ]
    ]

-- Finishing one key's execution leaves the entries of the others.
pub finish-keeps :
    (d : Deduplicator) (key : Key) (token : ℕ) (response : Option RmcMessage) (now : ℕ) (j : Key)
    (e : Entry)
    → find_entry j d.entries ≡ some e
    → key_eq key j ≡ false
    → find_entry j (finish_execution d key token response now).entries ≡ some e
unfolding finish_execution
finish-keeps d key token none now j e h apart = ground (arith, find-erase key j d.entries)
finish-keeps d key token (some response) now j e h apart =
    ground (arith, find-put key j (answered response (now + d.ttl)) d.entries)

-- What an execution answers is kept for the set time.
pub finish-answers :
    (d : Deduplicator) (key : Key) (token : ℕ) (response : RmcMessage) (now : ℕ)
    → find_entry key d.entries ≡ some (in_flight token)
    → find_entry key (finish_execution d key token (some response) now).entries
      ≡ some (answered response (now + d.ttl))
unfolding finish_execution
finish-answers d key token response now h =
    rw h (
      ground (arith, find-put key key (answered response (now + d.ttl)) d.entries, key_eq_refl key))
