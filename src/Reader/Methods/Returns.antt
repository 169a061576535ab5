-- ===== src/Reader/Methods/Returns.antt =====
-- What a method gives back: an interface that is asked for by its guid, or a value behind the last parameter.
use windows_rs.Base.{
  ℕ, ◌≡◌, ◌≢◌, refl, List, [], ◌∷◌, Bool, true, false, ◌==◌, ◌&&◌, ◌||◌, not, Option, none, some,
  Outcome, ok, panic, ◌>>=◌, Mode, if◌then◌else◌, arith,
}
use windows_rs.Metadata.Types.{Signature}
use windows_rs.Metadata.Rows.Flags
use windows_rs.Metadata.Rows.Members.{param_flags}
use windows_rs.Reader.Methods.{
  MethodParam, MethodSignature, last, last_two, all_but_last, queries, is_retval, last_returns,
  last_queries, returns_hresult, has_query_interface, has_retval, is_guid, is_void, is_hresult,
  kind_of, pointers_of, param_is_const, is_result_kind,
}

last-last_two :
    (ps : List MethodParam) (p q : MethodParam) → last_two ps ≡ some (p, q) → last ps ≡ some q
last-last_two [] p q e = cc
last-last_two (a ∷ []) p q e = cc
last-last_two (a ∷ b ∷ []) p q e = ground arith
last-last_two (a ∷ b ∷ c ∷ rest) p q e = last-last_two (b ∷ c ∷ rest) p q e

place_cases :
    (asked : Bool) (constant : Outcome Bool) (empty : Bool) (n : ℕ)
    → (if asked then (constant >>= λ c. ok (c && (empty && (n == 2)))) else ok false) ≡ ok true
    → n ≡ 2
place_cases false constant empty n h = cc
place_cases true (panic f) empty n h = cc
place_cases true (ok false) empty n h = cc
place_cases true (ok true) false n h = cc
place_cases true (ok true) true n h = ground arith

queries-two :
    (m : Mode) (guid object : MethodParam)
    → queries m guid object ≡ ok true
    → pointers_of object.signature ≡ 2
unfolding queries
queries-two m guid object h =
    place_cases (is_guid (kind_of guid.signature)) (param_is_const m guid)
      (is_void (kind_of object.signature)) (pointers_of object.signature) h

retval_cases :
    (word : Outcome ℕ) (n : ℕ) (by_kind : Outcome Bool)
    → n ≡ 2
    → (word >>= λ w.
        if Flags.input w || not (Flags.output w) || not (n == 1) then ok false else by_kind)
      ≢ ok true
retval_cases (panic f) n by_kind e h = cc
retval_cases (ok w) n by_kind e h = ground arith

not-is_retval : (m : Mode) (p : MethodParam) → pointers_of p.signature ≡ 2 → is_retval m p ≢ ok true
unfolding is_retval
not-is_retval m p e h =
    retval_cases (param_flags m p.param) (pointers_of p.signature)
      (is_result_kind m (kind_of p.signature)) e h

not-last_returns :
    (m : Mode) (front : List MethodParam) (p : MethodParam) (found : Outcome Bool)
    → is_retval m p ≡ found
    → found ≢ ok true
    → last_returns m front (some p) ≢ ok true
unfolding last_returns
not-last_returns m front p (panic f) e n h = let h' = rw e at h in cc
not-last_returns m front p (ok false) e n h = let h' = rw e at h in cc
not-last_returns m front p (ok true) e n h = n refl

if_true :
    (b : Bool) (o : Outcome Bool)
    → (if b then o else ok false) ≡ ok true
    → (b ≡ true) × (o ≡ ok true)
if_true true o h = (refl, h)
if_true false o h = cc

exclude :
    (m : Mode) (r : Option Signature) (ps front : List MethodParam)
    (two : Option (MethodParam × MethodParam))
    → last_two ps ≡ two
    → returns_hresult r (last_queries m two) ≡ ok true
    → returns_hresult r (last_returns m front (last ps)) ≢ ok true
exclude m none ps front two e h k = cc
exclude m (some r) ps front none e h k =
    let (result, found) = if_true (is_hresult (kind_of r)) (ok false) h in cc
exclude m (some r) ps front (some (guid, object)) e h k =
    let (result, asked) = if_true (is_hresult (kind_of r)) (queries m guid object) h in
    let (result', back) = if_true (is_hresult (kind_of r)) (last_returns m front (last ps)) k in
    let at_end = rw (last-last_two ps guid object e) at back in
    not-last_returns m front object (is_retval m object) refl
      (not-is_retval m object (queries-two m guid object asked)) at_end

-- In any build, no method that asks for an interface, by a constant guid and a place for the object behind two pointers, also counts as
-- one that gives its result back behind a pointer as its last parameter.
pub has_query_interface-has_retval :
    (m : Mode) (s : MethodSignature) → has_query_interface m s ≡ ok true → has_retval m s ≢ ok true
unfolding has_query_interface has_retval
has_query_interface-has_retval m s h =
    exclude m s.return_type s.params (all_but_last s.params) (last_two s.params) refl h
