-- ===== src/Reader/Classes/Sorted.antt =====
-- The order of a class's interfaces (`InterfaceInfo::sort` of crates/gen/src/parser/interface_info.rs).
use Prim.Native.Nat.{compare, Ordering}
use mathlib.Core.List.{Perm, perm_middle, append-nil}
use mathlib.Core.List.Perm
use windows_rs.Base.{
  ℕ, ◌≡◌, ◌≢◌, refl, List, [], ◌∷◌, ◌++◌, Bool, true, false, All, ok, Mode, arith, inl, inr, ◌<◌,
  ◌⊎◌, sym,
}
use windows_rs.Base.Text.{Text, cmp_text, cmp_text_flip, cmp_text-eq, cmp_text_refl}
use windows_rs.Base.OrderedMap.{Ordering-cases}
use windows_rs.Metadata.Rows.Names.{full_name}
use windows_rs.Reader.Classes.{
  Named, cmp_bool, then_cmp, cmp_infos, kind_rank, insert_sorted, sort_into, with_full_names,
  infos_of, sort, InterfaceKind,
}

-- An entry is not greater than the first one behind it.
abbrev pub Leads : Named → List Named → Type 0
Leads a [] = Unit
Leads a (b ∷ rest) = cmp_infos a b ≢ Ordering.gt

-- No entry is greater than the next one.
abbrev pub Ordered : List Named → Type 0
Ordered [] = Unit
Ordered (a ∷ rest) = Leads a rest × Ordered rest

-- A comparison and the one the other way round.
abbrev Flip : Ordering → Ordering → Type 0
Flip o o' = (o ≡ Ordering.gt → o' ≡ Ordering.lt) × (o ≡ Ordering.eq → o' ≡ Ordering.eq)

then-Flip : (a a' b b' : Ordering) → Flip a a' → Flip b b' → Flip (then_cmp a b) (then_cmp a' b')
then-Flip Ordering.lt a' b b' f h = (λ e. cc, λ e. cc)
then-Flip Ordering.gt a' b b' f h = (λ e. rw (f.0 refl) refl, λ e. cc)
then-Flip Ordering.eq a' b b' f h = let same = f.1 refl in rw same h

compare-Flip : (a b : ℕ) → Flip (compare a b) (compare b a)
compare-Flip a b = (λ e. ground arith, λ e. ground arith)

bool-Flip : (a b : Bool) → Flip (cmp_bool a b) (cmp_bool b a)
bool-Flip true true = (λ e. cc, λ e. refl)
bool-Flip false false = (λ e. cc, λ e. refl)
bool-Flip true false = (λ e. refl, λ e. cc)
bool-Flip false true = (λ e. cc, λ e. cc)

text-Flip : (s t : Text) → Flip (cmp_text s t) (cmp_text t s)
text-Flip s t = (cmp_text_flip s t, λ e. rw (cmp_text-eq s t e) (cmp_text_refl t))

cmp_infos-Flip : (a b : Named) → Flip (cmp_infos a b) (cmp_infos b a)
unfolding cmp_infos
cmp_infos-Flip (a, (ns, k)) (b, (ns', k')) = then-Flip _ _ _ _ (bool-Flip a.is_base b.is_base) (
    then-Flip _ _ _ _ (compare-Flip a.version.0 b.version.0) (
      then-Flip _ _ _ _ (compare-Flip a.version.1 b.version.1) (
        then-Flip _ _ _ _ (compare-Flip (kind_rank a.kind) (kind_rank b.kind))
          (then-Flip _ _ _ _ (text-Flip ns ns') (text-Flip k k')))))

lt_other_way : (a b : Named) → cmp_infos a b ≡ Ordering.lt → cmp_infos a b ≢ Ordering.gt
lt_other_way a b e g = cc

not_lt_flip : (a b : Named) → cmp_infos a b ≢ Ordering.lt → cmp_infos b a ≢ Ordering.gt
not_lt_flip a b n g = n ((cmp_infos-Flip b a).0 g)

insert_sorted-perm : (a : Named) (l : List Named) → Perm (insert_sorted a l) (a ∷ l)
unfolding insert_sorted
insert_sorted-perm a [] = Perm.refl (a ∷ [])
insert_sorted-perm a (b ∷ l) = elim (Ordering-cases (cmp_infos a b)) [
  | inl e ↦ rw (insert_sorted, e) (Perm.refl (a ∷ b ∷ l))
  | inr (inl e) ↦
      rw (insert_sorted, e) (Perm.trans (Perm.cons b (insert_sorted-perm a l)) (Perm.swap a b l))
  | inr (inr e) ↦
      rw (insert_sorted, e) (Perm.trans (Perm.cons b (insert_sorted-perm a l)) (Perm.swap a b l))
]

sort_into-perm : (sorted l : List Named) → Perm (sort_into sorted l) (sorted ++ l)
unfolding sort_into
sort_into-perm sorted [] = rw append-nil (Perm.refl sorted)
sort_into-perm sorted (a ∷ l) = Perm.trans (sort_into-perm (insert_sorted a sorted) l) (
    Perm.trans (Perm.append_right l (insert_sorted-perm a sorted))
      (Perm.symm (perm_middle sorted l)))

Leads-insert_sorted :
    (b a : Named) (l : List Named)
    → Leads b l
    → cmp_infos b a ≢ Ordering.gt
    → Leads b (insert_sorted a l)
unfolding insert_sorted
Leads-insert_sorted b a [] h n = n
Leads-insert_sorted b a (c ∷ l) h n = elim (Ordering-cases (cmp_infos a c)) [
  | inl e ↦ rw (insert_sorted, e) n
  | inr (inl e) ↦ rw (insert_sorted, e) h
  | inr (inr e) ↦ rw (insert_sorted, e) h
]

insert_sorted-Ordered : (a : Named) (l : List Named) → Ordered l → Ordered (insert_sorted a l)
unfolding insert_sorted
insert_sorted-Ordered a [] h = (tt, tt)
insert_sorted-Ordered a (b ∷ l) h =
    let deeper = insert_sorted-Ordered a l h.1 in
    elim (Ordering-cases (cmp_infos a b)) [
      | inl e ↦ rw (insert_sorted, e) (lt_other_way a b e, h)
      | inr (inl e) ↦
          let n : cmp_infos b a ≢ Ordering.gt = not_lt_flip a b (λ q. cc) in
          rw (insert_sorted, e) (Leads-insert_sorted b a l h.0 n, deeper)
      | inr (inr e) ↦
          let n : cmp_infos b a ≢ Ordering.gt = not_lt_flip a b (λ q. cc) in
          rw (insert_sorted, e) (Leads-insert_sorted b a l h.0 n, deeper)
    ]

sort_into-Ordered : (sorted l : List Named) → Ordered sorted → Ordered (sort_into sorted l)
unfolding sort_into
sort_into-Ordered sorted [] h = h
sort_into-Ordered sorted (a ∷ l) h =
    sort_into-Ordered (insert_sorted a sorted) l (insert_sorted-Ordered a sorted h)

with_full_names_lem :
    (m : Mode) (named : List Named)
    → All (λ (p : Named). full_name m p.0.def ≡ ok p.1) named
    → with_full_names m (infos_of named) ≡ ok named
unfolding with_full_names
with_full_names_lem m [] h = refl
with_full_names_lem m ((info, full) ∷ rest) h = rw (h.0, with_full_names_lem m rest h.1) refl

-- The place of a kind among the others.
abbrev pub place : InterfaceKind → ℕ
place InterfaceKind.default = 0
place InterfaceKind.non_default = 1
place InterfaceKind.overridable = 2
place InterfaceKind.static = 3
place InterfaceKind.composable = 4
place InterfaceKind.extend = 5

place-kind_rank : (k : InterfaceKind) → kind_rank k ≡ place k
unfolding kind_rank
place-kind_rank InterfaceKind.default = refl
place-kind_rank InterfaceKind.non_default = refl
place-kind_rank InterfaceKind.overridable = refl
place-kind_rank InterfaceKind.static = refl
place-kind_rank InterfaceKind.composable = refl
place-kind_rank InterfaceKind.extend = refl

-- One entry may stand in front of another: an own interface in front of one of a base class; if both are the one or the other,
-- the lower major version first, then the lower minor one, then the earlier kind, then the lower namespace in the order of bytes,
-- then a name that is not greater.
abbrev pub InOrder : Named → Named → Type 0
InOrder (a, (ns, k)) (b, (ns', k')) =
    ((a.is_base ≡ false) × (b.is_base ≡ true))
    ⊎ ((a.is_base ≡ b.is_base)
        × ((a.version.0 < b.version.0)
            ⊎ ((a.version.0 ≡ b.version.0)
                × ((a.version.1 < b.version.1)
                    ⊎ ((a.version.1 ≡ b.version.1)
                        × ((place a.kind < place b.kind)
                            ⊎ ((place a.kind ≡ place b.kind)
                                × ((cmp_text ns ns' ≡ Ordering.lt)
                                    ⊎ ((ns ≡ ns') × (cmp_text k k' ≢ Ordering.gt))))))))))

-- All neighbours are in order.
abbrev pub Sorted : List Named → Type 0
Sorted [] = Unit
Sorted (a ∷ []) = Unit
Sorted (a ∷ (b ∷ rest)) = InOrder a b × Sorted (b ∷ rest)

then_cmp-not_gt :
    (o later : Ordering)
    → then_cmp o later ≢ Ordering.gt
    → (o ≡ Ordering.lt) ⊎ ((o ≡ Ordering.eq) × (later ≢ Ordering.gt))
then_cmp-not_gt Ordering.lt later n = inl refl
then_cmp-not_gt Ordering.eq later n = inr (refl, n)
then_cmp-not_gt Ordering.gt later n = absurd (n refl)

cmp_bool-lt : (a b : Bool) → cmp_bool a b ≡ Ordering.lt → (a ≡ false) × (b ≡ true)
cmp_bool-lt false true e = (refl, refl)
cmp_bool-lt true true e = cc
cmp_bool-lt true false e = cc
cmp_bool-lt false false e = cc

cmp_bool-eq : (a b : Bool) → cmp_bool a b ≡ Ordering.eq → a ≡ b
cmp_bool-eq false true e = cc
cmp_bool-eq true true e = refl
cmp_bool-eq true false e = cc
cmp_bool-eq false false e = refl

compare-lt : (a b : ℕ) → compare a b ≡ Ordering.lt → a < b
compare-lt a b e = ground arith

compare-eq : (a b : ℕ) → compare a b ≡ Ordering.eq → a ≡ b
compare-eq a b e = ground arith

cmp_infos-InOrder : (a b : Named) → cmp_infos a b ≢ Ordering.gt → InOrder a b
unfolding cmp_infos
cmp_infos-InOrder (a, (ns, k)) (b, (ns', k')) n = elim (then_cmp-not_gt _ _ n) [
  | inl e ↦ inl (cmp_bool-lt a.is_base b.is_base e)
  | inr (e, n) ↦ inr (
    cmp_bool-eq a.is_base b.is_base e,
    elim (then_cmp-not_gt _ _ n) [
      | inl e ↦ inl (compare-lt a.version.0 b.version.0 e)
      | inr (e, n) ↦ inr (
        compare-eq a.version.0 b.version.0 e,
        elim (then_cmp-not_gt _ _ n) [
          | inl e ↦ inl (compare-lt a.version.1 b.version.1 e)
          | inr (e, n) ↦ inr (
            compare-eq a.version.1 b.version.1 e,
            elim (then_cmp-not_gt _ _ n) [
              | inl e ↦ inl (
                  rw (sym (place-kind_rank a.kind), sym (place-kind_rank b.kind))
                    (compare-lt _ _ e))
              | inr (e, n) ↦ inr (
                rw (sym (place-kind_rank a.kind), sym (place-kind_rank b.kind)) (compare-eq _ _ e),
                elim (then_cmp-not_gt _ _ n) [
                  | inl e ↦ inl e
                  | inr (e, n) ↦ inr (cmp_text-eq ns ns' e, n)
                ],
              )
            ],
          )
        ],
      )
    ],
  )
]

Ordered-Sorted : (l : List Named) → Ordered l → Sorted l
Ordered-Sorted [] h = tt
Ordered-Sorted (a ∷ []) h = tt
Ordered-Sorted (a ∷ (b ∷ rest)) h = (cmp_infos-InOrder a b h.0, Ordered-Sorted (b ∷ rest) h.1)

-- For interfaces whose full names can be read, in any build: `sort` returns the same entries, as often, and of any two
-- neighbours the first may stand in front of the second: own interfaces in front of those of base classes, then the lower
-- version, then the kinds default, other, overridable, static, composable and extended in this order, then the lower namespace
-- and name.
pub sort-Sorted :
    (m : Mode) (named : List Named)
    → All (λ (p : Named). full_name m p.0.def ≡ ok p.1) named
    → (sorted : List Named) × (sort m (infos_of named) ≡ ok (infos_of sorted))
      × Sorted sorted
      × Perm sorted named
unfolding sort
sort-Sorted m named h = (
  sort_into [] named,
  rw (with_full_names_lem m named h) refl,
  Ordered-Sorted (sort_into [] named) (sort_into-Ordered [] named tt),
  sort_into-perm [] named,
)
