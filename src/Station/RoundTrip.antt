-- ===== src/Station/RoundTrip.antt =====
-- nextendo-nex/types.go: a station address is read back from its text.
use nextendo_mk8d_matchmakin.Base.{
  ℕ, ◌≡◌, ◌≢◌, refl, ap, ◌∙◌, sym, ◌==◌, false, Option, some, List, [], ◌∷◌, ◌++◌, arith,
}
use nextendo_mk8d_matchmakin.Base.Lists.{contains, All, contains-append}
use nextendo_mk8d_matchmakin.Wire.Out.{Bytes}
use nextendo_mk8d_matchmakin.Session.Variant.{bytes_eq}
use nextendo_mk8d_matchmakin.Station.{
  StationUrl, set_text, set_param, join_params, with_scheme, render,
}
use nextendo_mk8d_matchmakin.Station.Parse.{
  cut_scheme, split_on, cut_at, set_pair, set_fields, set_fields_of, parse_cut, parse_station_url,
}
use mathlib.Core.List.{append_assoc, append-nil}

abbrev Pair : Type 0
Pair = Bytes × Bytes

abbrev field_of : Pair → Bytes
field_of p = p.0 ++ (b'=' ∷ p.1)

-- A key without `=` and `;`, and a value without `;`.
abbrev pub IsField : Pair → Type 0
IsField p = (contains p.0 b'=' ≡ false) × (contains p.0 b';' ≡ false) × (contains p.1 b';' ≡ false)

abbrev pub ApartKeys : List Pair → Type 0
ApartKeys [] = Unit {0}
ApartKeys (p ∷ ps) = All (λ q. bytes_eq p.0 q.0 ≡ false) ps × ApartKeys ps

pub record IsStationUrl (u : StationUrl) : Type 0 where
  pub has_scheme : u.scheme ≢ []
  pub scheme_free : contains u.scheme b':' ≡ false
  pub fields : All IsField u.params
  pub apart : ApartKeys u.params

cut_at_first :
    (sep : ℕ) (k v : Bytes) → contains k sep ≡ false → cut_at sep (k ++ (sep ∷ v)) ≡ some (k, v)
unfolding cut_at
cut_at_first sep [] v h = ground arith
cut_at_first sep (c ∷ k) v h =
    let e : (c == sep) ≡ false = ground arith in rw (e, cut_at_first sep k v (ground arith))

cut_scheme_first :
    (scheme rest : Bytes)
    → contains scheme b':' ≡ false
    → cut_scheme (scheme ++ (b':' ∷ b'/' ∷ rest)) ≡ some (scheme, rest)
unfolding cut_scheme
cut_scheme_first [] rest h = refl
cut_scheme_first (c ∷ []) rest h = let e : (c == b':') ≡ false = ground arith in rw e
cut_scheme_first (c ∷ d ∷ s) rest h =
    let e : (c == b':') ≡ false = ground arith in
    rw (e, cut_scheme_first (d ∷ s) rest (ground arith))

split_on_free : (sep : ℕ) (f : Bytes) → contains f sep ≡ false → split_on sep f ≡ f ∷ []
unfolding split_on
split_on_free sep [] h = refl
split_on_free sep (c ∷ f) h =
    let e : (c == sep) ≡ false = ground arith in rw (e, split_on_free sep f (ground arith))

split_on_next :
    (sep : ℕ) (f rest : Bytes)
    → contains f sep ≡ false
    → split_on sep (f ++ (sep ∷ rest)) ≡ f ∷ split_on sep rest
unfolding split_on
split_on_next sep [] rest h = ground arith
split_on_next sep (c ∷ f) rest h =
    let e : (c == sep) ≡ false = ground arith in rw (e, split_on_next sep f rest (ground arith))

field_free : (p : Pair) → IsField p → contains (field_of p) b';' ≡ false
field_free p (a, b, c) = rw (contains-append p.0 (b'=' ∷ p.1) b';', b) c

abbrev fields_of : List Pair → List Bytes
fields_of [] = []
fields_of (p ∷ ps) = field_of p ∷ fields_of ps

split_on-join_params :
    (p : Pair) (ps : List Pair)
    → All IsField (p ∷ ps)
    → split_on b';' (join_params (p ∷ ps)) ≡ fields_of (p ∷ ps)
unfolding join_params
split_on-join_params p [] h = split_on_free b';' (field_of p) (field_free p h.0)
split_on-join_params p (q ∷ ps) h =
    split_on_next b';' (field_of p) (join_params (q ∷ ps)) (field_free p h.0)
    ∙ ap (λ fs. field_of p ∷ fs) (split_on-join_params q ps h.1)

set_text_new :
    (k v : Bytes) (m : List Pair)
    → All (λ q. bytes_eq q.0 k ≡ false) m
    → set_text k v m ≡ m ++ ((k, v) ∷ [])
set_text_new k v [] h = refl
set_text_new k v ((j, w) ∷ m) h = rw (h.0, set_text_new k v m h.1)

-- No key of the first list stands in the second one.
abbrev NoneOf : List Pair → List Pair → Type 0
NoneOf m ps = All (λ q. All (λ p. bytes_eq q.0 p.0 ≡ false) ps) m

NoneOf-head :
    (m ps : List Pair) (p : Pair) → NoneOf m (p ∷ ps) → All (λ q. bytes_eq q.0 p.0 ≡ false) m
NoneOf-head [] ps p h = tt
NoneOf-head (q ∷ m) ps p h = (h.0.0, NoneOf-head m ps p h.1)

NoneOf-snoc :
    (m ps : List Pair) (p : Pair)
    → NoneOf m (p ∷ ps)
    → All (λ q. bytes_eq p.0 q.0 ≡ false) ps
    → NoneOf (m ++ (p ∷ [])) ps
NoneOf-snoc [] ps p h a = (a, tt)
NoneOf-snoc (q ∷ m) ps p h a = (h.0.1, NoneOf-snoc m ps p h.1 a)

set_fields_new :
    (scheme : Bytes) (m ps : List Pair)
    → All IsField ps
    → ApartKeys ps
    → NoneOf m ps
    → set_fields (record { scheme = scheme; params = m }) (fields_of ps)
      ≡ record { scheme = scheme; params = m ++ ps }
unfolding set_fields set_param
set_fields_new scheme m [] f a n =
    ap (λ (l : List Pair). record { scheme = scheme; params = l }) (sym (append-nil m))
set_fields_new scheme m ((k, v) ∷ ps) f a n =
    ap
      (λ (o : Option Pair).
        set_fields (set_pair (record { scheme = scheme; params = m }) o) (fields_of ps))
      (cut_at_first b'=' k v f.0.0)
    ∙ (ap (λ (l : List Pair). set_fields (record { scheme = scheme; params = l }) (fields_of ps))
          (set_text_new k v m (NoneOf-head m ps (k, v) n))
        ∙ (set_fields_new scheme (m ++ ((k, v) ∷ [])) ps f.1 a.1 (NoneOf-snoc m ps (k, v) n a.0)
            ∙ ap (λ (l : List Pair). record { scheme = scheme; params = l })
                (append_assoc m ((k, v) ∷ []) ps)))

set_fields_of-join_params :
    (scheme : Bytes) (ps : List Pair)
    → All IsField ps
    → ApartKeys ps
    → set_fields_of (record { scheme = scheme; params = [] }) (join_params ps)
      ≡ record { scheme = scheme; params = ps }
unfolding join_params
set_fields_of-join_params scheme [] f a = refl
set_fields_of-join_params scheme (p ∷ ps) f a =
    nonempty (join_params (p ∷ ps)) (starts p ps)
    ∙ (ap (set_fields (record { scheme = scheme; params = [] })) (split_on-join_params p ps f)
        ∙ set_fields_new scheme [] (p ∷ ps) f a tt)
  where
    nonempty :
        (text : Bytes)
        → text ≢ []
        → set_fields_of (record { scheme = scheme; params = [] }) text
          ≡ set_fields (record { scheme = scheme; params = [] }) (split_on b';' text)
    nonempty [] h = absurd (h refl)
    nonempty (c ∷ text) h = refl

    starts : (q : Pair) (qs : List Pair) → join_params (q ∷ qs) ≢ []
    starts ([], v) [] h = cc
    starts (c ∷ k, v) [] h = cc
    starts ([], v) (q ∷ qs) h = cc
    starts (c ∷ k, v) (q ∷ qs) h = cc

-- An address with a scheme that has no `:`, and keys and values without the separators, no key twice,
-- is read back from its text.
pub parse_station_url-render : (u : StationUrl) → IsStationUrl u → parse_station_url (render u) ≡ u
unfolding parse_station_url render
parse_station_url-render u ok = schemed u.scheme refl
  where
    schemed :
        (scheme : Bytes)
        → u.scheme ≡ scheme
        → parse_cut (cut_scheme (with_scheme u.scheme (join_params u.params))) ≡ u
    schemed [] e = absurd (ok.has_scheme e)
    schemed (c ∷ s) e = rw e (
        unfold with_scheme in
        rw (cut_scheme_first (c ∷ s) (join_params u.params) (rw e at ok.scheme_free))
          (set_fields_of-join_params (c ∷ s) u.params ok.fields ok.apart))
