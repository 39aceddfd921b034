-- ===== src/Matchmaking/QueryRules.antt =====
-- nextendo-nex/matchmaking_handlers.go and matchmaking_acnh.go: what the queries show, and to whom.
use nextendo_mk8d_matchmakin.Base.{
  ℕ, ◌≤◌, ◌≡◌, ◌≢◌, ◌⊎◌, ◌↔◌, refl, ◌==◌, ltb, if◌then◌else◌, true, false, ◌&&◌, Option, none, some,
  List, [], ◌∷◌, arith, inl, inr, Option-cases, Bool-cases,
}
use nextendo_mk8d_matchmakin.Base.Lists.{contains, Among}
use nextendo_mk8d_matchmakin.Base.Maps.{find}
use nextendo_mk8d_matchmakin.Wire.Out.{Bytes}
use nextendo_mk8d_matchmakin.Session.Keys.{bytes_eq_sound, bytes_eq_of_eq}
use nextendo_mk8d_matchmakin.Session.Types.{Session}
use nextendo_mk8d_matchmakin.Matchmaking.State.{Gathering, Store}
use nextendo_mk8d_matchmakin.Matchmaking.Leave.{is_empty}
use nextendo_mk8d_matchmakin.Matchmaking.Queries.{
  is_listed, shown_session, browse_sessions, later_of, latest_from, session_of_participant,
}

-- A search with the code `want`, or the public one where that is empty, may show the gathering.
abbrev pub MayShow : Bytes → Gathering → Type 0
MayShow want g =
    (g.session.info.open_participation ≡ true)
    × ((want ≡ []) × (g.session.info.user_password_enabled ≡ false)
        ⊎ (want ≢ []) × ((g.session.info.codeword ≡ want) ⊎ (g.code ≡ want)))

-- What a search shows of a session.
abbrev pub IsShownAs : Bytes → Session → Session → Type 0
IsShownAs want r shown =
    (shown.gathering ≡ r.gathering)
    × (shown.info ≡ record (r.info) {
      user_password = [];
      session_key = if is_empty want then [] else r.info.session_key;
    })

is_empty_nil : (b : Bytes) → is_empty b ≡ true → b ≡ []
is_empty_nil [] h = refl
is_empty_nil (x ∷ b) h = cc

is_empty_ne : (b : Bytes) → is_empty b ≡ false → b ≢ []
is_empty_ne [] h e = cc
is_empty_ne (x ∷ b) h e = cc

is_listed-MayShow : (want : Bytes) (g : Gathering) → is_listed want g ≡ true → MayShow want g
unfolding is_listed
is_listed-MayShow want g h = elim (Bool-cases (is_empty want)) [
  | inl e ↦ (ground arith, inl (is_empty_nil want e, ground arith))
  | inr e ↦ (
    ground arith,
    inr (
      is_empty_ne want e,
      ground (arith, bytes_eq_sound g.session.info.codeword want, bytes_eq_sound g.code want),
    ),
  )
]

MayShow-is_listed : (want : Bytes) (g : Gathering) → MayShow want g → is_listed want g ≡ true
unfolding is_listed
MayShow-is_listed [] g h = ground arith
MayShow-is_listed (x ∷ want) g h =
    ground
      (arith, bytes_eq_of_eq g.session.info.codeword (x ∷ want), bytes_eq_of_eq g.code (x ∷ want))

shown_session-IsShownAs : (want : Bytes) (r : Session) → IsShownAs want r (shown_session want r)
unfolding shown_session
shown_session-IsShownAs [] r = (refl, refl)
shown_session-IsShownAs (x ∷ want) r = (refl, refl)

-- A gathering that the runtime ranges over and the search may show, and what is shown of it.
abbrev pub IsHit : Bytes → Store → List ℕ → Session → Type 0
IsHit want m order shown =
    (gid : ℕ) × (g : Gathering) × (contains order gid ≡ true)
    × (find gid m.gatherings ≡ some g)
    × MayShow want g
    × (shown ≡ shown_session want g.session)

browse_sessions_sound :
    (want : Bytes) (m : Store) (order : List ℕ) (shown : Session)
    → Among shown (browse_sessions want m order)
    → IsHit want m order shown
unfolding browse_sessions
browse_sessions_sound want m [] shown h = elim h [ ]
browse_sessions_sound want m (gid ∷ gids) shown h = elim (Option-cases (find gid m.gatherings)) [
  | inl e ↦ later (browse_sessions_sound want m gids shown (rw e at h))
  | inr (g, e) ↦ elim (Bool-cases (is_listed want g)) [
    | inl t ↦ elim (rw (e, t) at h) [
      | inl same ↦ (gid, g, ground arith, e, is_listed-MayShow want g t, same)
      | inr more ↦ later (browse_sessions_sound want m gids shown more)
    ]
    | inr t ↦ later (browse_sessions_sound want m gids shown (rw (e, t) at h))
  ]
]
  where
    later : IsHit want m gids shown → IsHit want m (gid ∷ gids) shown
    later (k, g, c, e, may, same) = (k, g, ground arith, e, may, same)

browse_sessions_complete :
    (want : Bytes) (m : Store) (order : List ℕ) (gid : ℕ) (g : Gathering)
    → contains order gid ≡ true
    → find gid m.gatherings ≡ some g
    → MayShow want g
    → Among (shown_session want g.session) (browse_sessions want m order)
unfolding browse_sessions
browse_sessions_complete want m [] gid g c e may = cc
browse_sessions_complete want m (k ∷ gids) gid g c e may = elim (Bool-cases (k == gid)) [
  | inl same ↦
      let e' : find k m.gatherings ≡ some g = ground arith in
      rw (e', MayShow-is_listed want g may) (inl refl)
  | inr other ↦
      let rest = browse_sessions_complete want m gids gid g (ground arith) e may in
      elim (Option-cases (find k m.gatherings)) [
        | inl e' ↦ rw e' rest
        | inr (h, e') ↦ elim (Bool-cases (is_listed want h)) [
          | inl t ↦ rw (e', t) (inr rest)
          | inr t ↦ rw (e', t) rest
        ]
      ]
]

-- What is shown of a gathering is its session without the password and, in a public search, without
-- the key; and a session is shown exactly when it is that of a stored gathering that the runtime
-- ranges over and that is open and, in a public search, has no password or, in a search for a code,
-- has this code as its code word or its room code.
pub browse_sessions_iff :
    (want : Bytes) (m : Store) (order : List ℕ) (r shown : Session)
    → IsShownAs want r (shown_session want r)
      × (Among shown (browse_sessions want m order) ↔ IsHit want m order shown)
browse_sessions_iff want m order r shown =
    (shown_session-IsShownAs want r, (browse_sessions_sound want m order shown, back))
  where
    back : IsHit want m order shown → Among shown (browse_sessions want m order)
    back (gid, g, c, e, may, same) = rw same (browse_sessions_complete want m order gid g c e may)

-- The best gathering so far: the player takes part in it and it was stored.
abbrev Candidate : Store → ℕ → Option Gathering → Type 0
Candidate m pid none = Unit {0}
Candidate m pid (some g) =
    (contains g.participants pid ≡ true) × ((gid : ℕ) × (find gid m.gatherings ≡ some g))

-- No later than the best one.
abbrev NotLater : Gathering → Option Gathering → Type 0
NotLater h none = ⊥
NotLater h (some g) = h.session.info.started_time ≤ g.session.info.started_time

later_of-NotLater :
    (pid : ℕ) (h : Gathering) (o best : Option Gathering)
    → NotLater h best
    → NotLater h (later_of pid o best)
unfolding later_of
later_of-NotLater pid h none best n = n
later_of-NotLater pid h (some g) none n = elim n [ ]
later_of-NotLater pid h (some g) (some b) n =
    elim (Bool-cases (
      contains g.participants pid && ltb b.session.info.started_time g.session.info.started_time)) [
        | inl e ↦ rw e (ground arith)
        | inr e ↦ rw e n
      ]

latest_from-NotLater :
    (m : Store) (pid : ℕ) (h : Gathering) (best : Option Gathering) (order : List ℕ)
    → NotLater h best
    → NotLater h (latest_from m pid best order)
unfolding latest_from
latest_from-NotLater m pid h best [] n = n
latest_from-NotLater m pid h best (gid ∷ gids) n =
    latest_from-NotLater m pid h (later_of pid (find gid m.gatherings) best) gids
      (later_of-NotLater pid h (find gid m.gatherings) best n)

later_of-Candidate :
    (m : Store) (pid gid : ℕ) (best : Option Gathering)
    → Candidate m pid best
    → Candidate m pid (later_of pid (find gid m.gatherings) best)
unfolding later_of
later_of-Candidate m pid gid best c = elim (Option-cases (find gid m.gatherings)) [
  | inl e ↦ rw e c
  | inr (g, e) ↦ rw e (taken g e best c)
]
  where
    taken :
        (g : Gathering)
        → find gid m.gatherings ≡ some g
        → (b : Option Gathering) → Candidate m pid b
        → Candidate m pid (later_of pid (some g) b)
    taken g e none c = elim (Bool-cases (contains g.participants pid)) [
      | inl t ↦ rw t (t, (gid, e))
      | inr t ↦ rw t tt
    ]
    taken g e (some b) c =
        elim (Bool-cases (
          contains g.participants pid
          && ltb b.session.info.started_time g.session.info.started_time)) [
            | inl t ↦ rw t (ground arith, (gid, e))
            | inr t ↦ rw t c
          ]

latest_from-Candidate :
    (m : Store) (pid : ℕ) (best : Option Gathering) (order : List ℕ)
    → Candidate m pid best
    → Candidate m pid (latest_from m pid best order)
unfolding latest_from
latest_from-Candidate m pid best [] c = c
latest_from-Candidate m pid best (gid ∷ gids) c =
    latest_from-Candidate m pid (later_of pid (find gid m.gatherings) best) gids
      (later_of-Candidate m pid gid best c)

later_of_taken :
    (pid : ℕ) (h : Gathering) (best : Option Gathering)
    → contains h.participants pid ≡ true
    → NotLater h (later_of pid (some h) best)
unfolding later_of
later_of_taken pid h none c = rw c (omega arith)
later_of_taken pid h (some b) c =
    elim (Bool-cases (ltb b.session.info.started_time h.session.info.started_time)) [
      | inl e ↦ rw (c, e) (omega arith)
      | inr e ↦ rw (c, e) (ground arith)
    ]

latest_from_covers :
    (m : Store) (pid : ℕ) (best : Option Gathering) (order : List ℕ) (gid : ℕ) (h : Gathering)
    → contains order gid ≡ true
    → find gid m.gatherings ≡ some h
    → contains h.participants pid ≡ true
    → NotLater h (latest_from m pid best order)
unfolding latest_from
latest_from_covers m pid best [] gid h c e t = cc
latest_from_covers m pid best (k ∷ gids) gid h c e t = elim (Bool-cases (k == gid)) [
  | inl same ↦
      let e' : find k m.gatherings ≡ some h = ground arith in
      rw e' (latest_from-NotLater m pid h _ gids (later_of_taken pid h best t))
  | inr other ↦
      latest_from_covers m pid (later_of pid (find k m.gatherings) best) gids gid h (ground arith) e
        t
]

-- When a player takes part in some gathering that the runtime ranges over, the search by participant
-- finds one: it is stored, the player takes part in it, and it did not start before that gathering.
pub session_of_participant_latest :
    (m : Store) (pid : ℕ) (order : List ℕ) (gid : ℕ) (h : Gathering)
    → contains order gid ≡ true
    → find gid m.gatherings ≡ some h
    → contains h.participants pid ≡ true
    → (g : Gathering) × (session_of_participant m pid order ≡ some g)
      × (contains g.participants pid ≡ true)
      × ((k : ℕ) × (find k m.gatherings ≡ some g))
      × (h.session.info.started_time ≤ g.session.info.started_time)
unfolding session_of_participant
session_of_participant_latest m pid order gid h c e t =
    found (latest_from m pid none order) refl (latest_from_covers m pid none order gid h c e t)
      (latest_from-Candidate m pid none order tt)
  where
    found :
        (o : Option Gathering)
        → latest_from m pid none order ≡ o
        → NotLater h o
        → Candidate m pid o
        → (g : Gathering) × (latest_from m pid none order ≡ some g)
          × (contains g.participants pid ≡ true)
          × ((k : ℕ) × (find k m.gatherings ≡ some g))
          × (h.session.info.started_time ≤ g.session.info.started_time)
    found none eq n cand = elim n [ ]
    found (some g) eq n cand = (g, eq, cand.0, cand.1, n)
