-- ===== src/Reader/Classes.antt =====
-- The interfaces of a class in the order in which its methods are generated: `Class::interfaces`
-- (crates/gen/src/types/class.rs), `InterfaceInfo` (parser/interface_info.rs), `InterfaceKind` (parser/interface_kind.rs) and
-- `MethodInfo` (parser/method_info.rs).
pub mod Sorted
pub mod Numbered
use Prim.Native.Nat.{compare, Ordering}
use windows_rs.Base.{
  ◌%◌, u32_mod, ℕ, zero, suc, ◌+◌, List, [], ◌∷◌, ◌++◌, Bool, true, false, ◌==◌, ◌||◌, not, ◌&&◌,
  if◌then◌else◌, Option, none, some, Fault, Outcome, ok, panic, ◌>>=◌, Mode, by_order,
}
use windows_rs.Base.Word.{add_u32}
use windows_rs.Base.Text.{Text, text, cmp_text, same_text}
use windows_rs.Base.OrderedMap.{OrderedMap, entry, get, or_else}
use windows_rs.Metadata.File.{Row}
use windows_rs.Metadata.Constants.{ConstantValue}
use windows_rs.Metadata.Types.Equality.{same_def}
use windows_rs.Metadata.Types.{
  ElementType, Signature, signature, TypeDef, def, ElementTypes, nil, cons,
}
use windows_rs.Metadata.Rows.{methods}
use windows_rs.Metadata.Rows.Names.{FullName, full_name}
use windows_rs.Metadata.Rows.Attributes.{
  is_default, is_overridable, is_deprecated, attribute_name, attributes,
}
use windows_rs.Metadata.Rows.TypeDefs.{interface_impls}
use windows_rs.Reader.Loading.{TypeReader}
use windows_rs.Reader.Values.{args}
use windows_rs.Reader.Values.Uses.{version, composable_type, first_type, type_attributes, rust_name}
use windows_rs.Reader.Interfaces.{generics_of, as_type_def, generic_interface, bases}

pub data InterfaceKind : Type 0 where
  default non_default overridable static composable extend : InterfaceKind

pub record InterfaceInfo : Type 0 where
  pub def : TypeDef
  pub kind : InterfaceKind
  pub is_base : Bool
  pub version : ℕ × ℕ

abbrev raise : InterfaceKind → InterfaceInfo → InterfaceInfo
raise InterfaceKind.default info = record info { kind = InterfaceKind.default }
raise _ info = info

-- The loop over the entries that are there: the last field tells whether the interface is among them.
unfoldable pub note_existing :
    TypeDef → InterfaceKind → List InterfaceInfo → List InterfaceInfo × Bool
unfolding same_def
note_existing d kind [] = ([], false)
note_existing d kind (info ∷ rest) =
    let later = note_existing d kind rest in
    if same_def info.def d then (raise kind info ∷ later.0, true) else (info ∷ later.0, later.1)

-- The order in which `sort` puts the entries, over their names.
abbrev pub cmp_bool : Bool → Bool → Ordering
cmp_bool false true = Ordering.lt
cmp_bool true false = Ordering.gt
cmp_bool _ _ = Ordering.eq

unfoldable pub kind_rank : InterfaceKind → ℕ
kind_rank InterfaceKind.default = 0
kind_rank InterfaceKind.non_default = 1
kind_rank InterfaceKind.overridable = 2
kind_rank InterfaceKind.static = 3
kind_rank InterfaceKind.composable = 4
kind_rank InterfaceKind.extend = 5

abbrev pub then_cmp : Ordering → Ordering → Ordering
then_cmp Ordering.eq later = later
then_cmp first later = first

abbrev pub Named : Type 0
Named = InterfaceInfo × FullName

unfoldable pub cmp_infos : Named → Named → Ordering
unfolding kind_rank cmp_text
cmp_infos (a, (ns, k)) (b, (ns', k')) = then_cmp (cmp_bool a.is_base b.is_base) (
    then_cmp (compare a.version.0 b.version.0) (
      then_cmp (compare a.version.1 b.version.1) (
        then_cmp (compare (kind_rank a.kind) (kind_rank b.kind))
          (then_cmp (cmp_text ns ns') (cmp_text k k')))))

-- A stable sort, as `sort_by` is: an entry goes behind those that it is not less than.
unfoldable pub insert_sorted : Named → List Named → List Named
unfolding cmp_infos
insert_sorted a [] = a ∷ []
insert_sorted a (b ∷ rest) =
    let later = insert_sorted a rest in
    elim (cmp_infos a b) [ Ordering.lt ↦ a ∷ b ∷ rest | _ ↦ b ∷ later ]

unfoldable pub sort_into : List Named → List Named → List Named
unfolding insert_sorted
sort_into sorted [] = sorted
sort_into sorted (a ∷ rest) = sort_into (insert_sorted a sorted) rest

-- The names of the entries; the source reads those that the comparison needs.
unfoldable pub with_full_names : Mode → List InterfaceInfo → Outcome (List Named)
unfolding full_name
with_full_names m [] = ok []
with_full_names m (info ∷ rest) = do
  full ← full_name m info.def
  more ← with_full_names m rest
  ok ((info, full) ∷ more)

abbrev pub infos_of : List Named → List InterfaceInfo
infos_of [] = []
infos_of ((info, full) ∷ rest) = info ∷ infos_of rest

unfoldable pub sort : Mode → List InterfaceInfo → Outcome (List InterfaceInfo)
unfolding with_full_names sort_into
sort m infos = do named ← with_full_names m infos; ok (infos_of (sort_into [] named))

-- What the generator is told of a method.
pub record MethodInfo : Type 0 where
  pub name : Text
  pub vtable_offset : ℕ
  pub overload : ℕ
  pub is_deprecated : Bool

-- The counters of the names, and the number that the method gets: `method_names.entry(name).or_insert(0)` and `+= 1`.
unfoldable pub count_name : Mode → Text → OrderedMap ℕ → Outcome (OrderedMap ℕ × ℕ)
unfolding entry get add_u32
count_name m name counts = do
  overload ← add_u32 m (or_else 0 (get name counts)) 1
  ok (entry name 0 (λ n. overload) counts, overload)

module _ (m : Mode) (reader : TypeReader) (fuel : ℕ) where
  unfoldable pub child_kind : Bool → Row → Outcome InterfaceKind
  unfolding is_default is_overridable
  child_kind is_base r = do
    chosen ← if is_base then ok false else is_default m r
    let other = do
      marked ← is_overridable m r
      ok (if marked then InterfaceKind.overridable else InterfaceKind.non_default)
    if chosen then ok InterfaceKind.default else other

  abbrev Visit : Type 0
  Visit = TypeDef → List InterfaceInfo → Outcome (List InterfaceInfo)

  -- The body of the loop at an interface; its own interfaces go in front of it.
  unfoldable pub add_interface :
      Visit → Bool → InterfaceKind → TypeDef → List InterfaceInfo → Outcome (List InterfaceInfo)
  unfolding note_existing version
  add_interface visit is_base kind d result =
      let noted = note_existing d kind result in
      let added = (do
        deeper ← visit d noted.0
        v ← version m reader fuel d
        ok (deeper ++ (record { def = d; kind = kind; is_base = is_base; version = v } ∷ []))) in
      if noted.1 then ok noted.0 else added

  unfoldable pub add_children :
      Visit → Bool → ElementTypes → List Row → List InterfaceInfo → Outcome (List InterfaceInfo)
  unfolding generic_interface child_kind add_interface
  add_children visit is_base generics [] result = ok result
  add_children visit is_base generics (r ∷ rest) result = do
    t ← generic_interface m reader fuel generics r
    next ← elim (as_type_def t) [
      | none ↦ ok result
      | some d ↦ (do kind ← child_kind is_base r; add_interface visit is_base kind d result)
    ]
    add_children visit is_base generics rest next

  -- `depth` bounds the chain of interfaces that require one another.
  unfoldable pub add_interfaces :
      ℕ → Bool → TypeDef → List InterfaceInfo → Outcome (List InterfaceInfo)
  unfolding interface_impls add_children
  add_interfaces zero is_base parent result = panic Fault.out_of_fuel
  add_interfaces (suc depth) is_base parent result = do
    rows ← interface_impls m parent
    add_children (add_interfaces depth is_base) is_base (generics_of parent) rows result

  unfoldable pub add_bases : ℕ → List TypeDef → List InterfaceInfo → Outcome (List InterfaceInfo)
  unfolding add_interfaces
  add_bases depth [] result = ok result
  add_bases depth (b ∷ rest) result = do
    next ← add_interfaces depth true b result
    add_bases depth rest next

  -- An interface that an attribute names, behind the others.
  unfoldable pub push_named :
      InterfaceKind → Option TypeDef → List InterfaceInfo → Outcome (List InterfaceInfo)
  unfolding version
  push_named kind none result = ok result
  push_named kind (some d) result = do
    v ← version m reader fuel d
    ok (result ++ (record { def = d; kind = kind; is_base = false; version = v } ∷ []))

  unfoldable pub add_attributes : List Row → List InterfaceInfo → Outcome (List InterfaceInfo)
  unfolding attribute_name args first_type composable_type push_named
  add_attributes [] result = ok result
  add_attributes (r ∷ rest) result = do
    name ← attribute_name m r
    let static = do
      found ← args m reader fuel r
      push_named InterfaceKind.static (first_type found) result
    let composable = do
      found ← composable_type m reader fuel r
      push_named InterfaceKind.composable found result
    next ←
        if same_text name (text "StaticAttribute") || same_text name (text "ActivatableAttribute")
        then static
        else if same_text name (text "ComposableAttribute")
        then composable
        else ok result
    add_attributes rest next

  -- `Class::interfaces`
  unfoldable pub class_interfaces : ℕ → TypeDef → Outcome (List InterfaceInfo)
  unfolding add_interfaces bases add_bases attributes add_attributes sort
  class_interfaces depth d = do
    own ← add_interfaces depth false d []
    bs ← bases m reader fuel depth d
    inherited ← add_bases depth bs own
    rows ← type_attributes m d
    found ← add_attributes rows inherited
    sort m found

  -- The loop of `gen_methods` over the methods of an interface, from a slot of the table on.
  unfoldable pub number_methods :
      ℕ → List Row → OrderedMap ℕ → Outcome (List MethodInfo × OrderedMap ℕ)
  unfolding rust_name count_name add_u32 is_deprecated
  number_methods slot [] counts = ok ([], counts)
  number_methods slot (r ∷ rest) counts = do
    name ← rust_name m reader fuel r
    (next, overload) ← count_name m name counts
    vtable_offset ← add_u32 m (slot % u32_mod) 6
    deprecated ← is_deprecated m r
    (more, last) ← number_methods (slot + 1) rest next
    ok (
      record {
        name = name;
        vtable_offset = vtable_offset;
        overload = overload;
        is_deprecated = deprecated;
      }
          ∷ more,
      last,
    )

  -- And the loop over the interfaces, with the same counters.
  unfoldable pub number_interfaces :
      List InterfaceInfo → OrderedMap ℕ → Outcome (List (List MethodInfo))
  unfolding methods number_methods
  number_interfaces [] counts = ok []
  number_interfaces (info ∷ rest) counts = do
    rows ← methods m info.def
    (own, next) ← number_methods 0 rows counts
    more ← number_interfaces rest next
    ok (own ∷ more)
