-- ===== src/Matchmaking/Reservations.antt =====
-- nextendo-nex/matchmaking_reservations.go: a seat is reserved before a join is committed. The
-- functions act on one gathering, as the source's do under the store's lock.
use nextendo_mk8d_matchmakin.Base.{
  ℕ, ◌+◌, ◌==◌, ltb, leb, if◌then◌else◌, Bool, true, false, not, ◌&&◌, Option, none, some, [], ◌∷◌,
  ◌++◌,
}
use nextendo_mk8d_matchmakin.Base.Lists.{length, contains}
use nextendo_mk8d_matchmakin.Base.Maps.{find, has, insert, erase, keep_values}
use nextendo_mk8d_matchmakin.Matchmaking.State.{Gathering, Store, default_join_reservation_ttl}

-- `SetJoinReservationTTL`; a duration below zero is one at zero here.
unfoldable pub set_join_reservation_ttl : Store → ℕ → Store
set_join_reservation_ttl m ttl = record m {
  reservation_ttl = if ttl == 0 then default_join_reservation_ttl else ttl;
}

-- `expireJoinReservationsLocked`: what is not before its expiry is dropped.
unfoldable pub expire_join_reservations : Gathering → ℕ → Gathering
expire_join_reservations g now = record g { reservations = keep_values (ltb now) g.reservations }

-- `occupiedSeatsLocked`
unfoldable pub occupied_seats : Gathering → ℕ → Gathering × ℕ
occupied_seats g now =
    let g' = expire_join_reservations g now in (g', length g'.participants + length g'.reservations)

abbrev pub max_seats : Gathering → ℕ
max_seats g = g.session.gathering.max_participants

-- `reserveJoinLocked`; a session with no maximum is never full.
unfoldable pub reserve_join : Gathering → ℕ → ℕ → ℕ → Gathering × Bool
reserve_join g ttl pid now =
    if contains g.participants pid
    then (record g { reservations = erase pid g.reservations }, true)
    else let g' = expire_join_reservations g now in
      let reserved = record g' { reservations = insert pid (now + ttl) g'.reservations } in
      if has pid g'.reservations
      then (reserved, true)
      else if ltb 0 (max_seats g')
          && leb (max_seats g') (length g'.participants + length g'.reservations)
      then (g', false)
      else (reserved, true)

-- The reservation is missing, or it has expired.
abbrev pub is_dead : Option ℕ → ℕ → Bool
is_dead none now = true
is_dead (some expires) now = not (ltb now expires)

-- `commitReservedJoinLocked`
unfoldable pub commit_reserved_join : Gathering → ℕ → ℕ → Gathering × Bool
commit_reserved_join g pid now =
    let g' = record g { reservations = erase pid g.reservations } in
    if contains g.participants pid
    then (g', false)
    else if is_dead (find pid g.reservations) now
    then (g', false)
    else (record g' { participants = g.participants ++ (pid ∷ []) }, true)

-- `ReserveJoin` on the store; a gathering that is not there, or a zero id, reserves nothing.
unfoldable pub reserve_found : Store → ℕ → ℕ → ℕ → Option Gathering → Store × Bool
reserve_found m gid pid now none = (m, false)
reserve_found m gid pid now (some g) =
    let (g', done) = reserve_join g m.reservation_ttl pid now in
    (record m { gatherings = insert gid g' m.gatherings }, done)

unfoldable pub reserve_join_by_id : Store → ℕ → ℕ → ℕ → Store × Bool
reserve_join_by_id m gid pid now =
    if pid == 0 then (m, false) else reserve_found m gid pid now (find gid m.gatherings)

unfoldable pub cancel_found : Store → ℕ → ℕ → Option Gathering → Store
cancel_found m gid pid none = m
cancel_found m gid pid (some g) = record m {
  gatherings = insert gid (record g { reservations = erase pid g.reservations }) m.gatherings;
}

-- `CancelJoinReservation`
unfoldable pub cancel_join_reservation : Store → ℕ → ℕ → Store
cancel_join_reservation m gid pid = cancel_found m gid pid (find gid m.gatherings)
