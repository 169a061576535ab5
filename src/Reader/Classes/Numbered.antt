-- ===== src/Reader/Classes/Numbered.antt =====
-- The numbers of overloaded methods in `gen_methods` (crates/gen/src/parser/interface_info.rs).
use windows_rs.Base.{
  ◌<◌, ◌≤◌, ◌%◌, length, u32_mod, ℕ, suc, ◌+◌, ◌≡◌, ◌≢◌, refl, List, [], ◌∷◌, map, Bool, false, All,
  ok, Mode, Bool-cases, inl, inr, arith, ◌∙◌, ap, sym, if◌then◌else◌,
}
use windows_rs.Base.Word.{add_u32, add_u32_ok}
use windows_rs.Base.Text.{Text, same_text, same_text-eq, same_text_refl}
use windows_rs.Base.OrderedMap.{OrderedMap, get, entry, or_else, get-entry, get-entry_other}
use windows_rs.Metadata.File.{Row}
use windows_rs.Metadata.Rows.{methods}
use windows_rs.Metadata.Rows.Attributes.{is_deprecated}
use windows_rs.Reader.Loading.{TypeReader}
use windows_rs.Reader.Values.Uses.{rust_name}
use windows_rs.Reader.Classes.{
  InterfaceInfo, MethodInfo, count_name, number_methods, number_interfaces,
}

-- How often a name stands in a list.
abbrev pub occurrences : Text → List Text → ℕ
occurrences k [] = 0
occurrences k (name ∷ rest) =
    let later = occurrences k rest in if same_text k name then suc later else later

-- A method with its name and whether it is deprecated.
abbrev pub Method : Type 0
Method = Row × Text × Bool

abbrev pub row : Method → Row
row method = method.0

-- The methods of an interface, whose names go in front of the earlier ones, and what they are told, by a count of those.
abbrev pub after_methods : List Text → List Method → List Text
after_methods earlier [] = earlier
after_methods earlier ((r, name, deprecated) ∷ rest) = after_methods (name ∷ earlier) rest

abbrev pub infos_after : List Text → ℕ → List Method → List MethodInfo
infos_after earlier slot [] = []
infos_after earlier slot ((r, name, deprecated) ∷ rest) =
    record {
      name = name;
      vtable_offset = slot + 6;
      overload = suc (occurrences name earlier);
      is_deprecated = deprecated;
    }
    ∷ infos_after (name ∷ earlier) (slot + 1) rest

abbrev pub all_infos : List Text → List (InterfaceInfo × List Method) → List (List MethodInfo)
all_infos earlier [] = []
all_infos earlier ((info, ms) ∷ rest) =
    infos_after earlier 0 ms ∷ all_infos (after_methods earlier ms) rest

-- The methods of all interfaces.
abbrev pub method_count : List (InterfaceInfo × List Method) → ℕ
method_count [] = 0
method_count ((info, ms) ∷ rest) = length ms + method_count rest

length-after_methods :
    (ms : List Method) (earlier : List Text)
    → length (after_methods earlier ms) ≡ length earlier + length ms
length-after_methods [] earlier = omega arith
length-after_methods ((r, name, deprecated) ∷ rest) earlier =
    omega (arith, length-after_methods rest (name ∷ earlier))

abbrev pub info_of : InterfaceInfo × List Method → InterfaceInfo
info_of p = p.0

-- The counters hold how often each name has been seen.
abbrev Counts : List Text → OrderedMap ℕ → Type 0
Counts earlier counts = (k : Text) → or_else 0 (get k counts) ≡ occurrences k earlier

differ : (k name : Text) → same_text k name ≡ false → k ≢ name
differ k name e q = let e' = rw q at e in let s = same_text_refl name in cc

-- No name stands more often in a list than there are names.
occurrences-le : (k : Text) (names : List Text) → occurrences k names ≤ length names
occurrences-le k [] = omega arith
occurrences-le k (name ∷ rest) = ground (arith, occurrences-le k rest)

count_name_lem :
    (m : Mode) (earlier : List Text) (counts : OrderedMap ℕ) (name : Text)
    → Counts earlier counts
    → length earlier + 1 < u32_mod
    → (next : OrderedMap ℕ) × (count_name m name counts ≡ ok (next, suc (occurrences name earlier)))
      × Counts (name ∷ earlier) next
unfolding count_name
count_name_lem m earlier counts name h few =
    let number : ℕ = or_else 0 (get name counts) + 1 in
    let next = entry name 0 (λ n. number) counts in
    let low = occurrences-le name earlier in
    let counted : number ≡ suc (occurrences name earlier) = omega (arith, h name) in
    let found : or_else 0 (get name next) ≡ suc (occurrences name earlier) =
      ap (λ o. or_else 0 o) (get-entry name 0 (λ n. number) counts) ∙ counted in
    (
      next,
      rw (add_u32_ok m (or_else 0 (get name counts)) 1 (omega (arith, h name)))
          (ap (λ (n : ℕ). ok (next, n)) counted),
      λ k. elim (Bool-cases (same_text k name)) [
        | inl e ↦
            let same = same_text-eq k name e in
            rw e (
              ap (λ z. or_else 0 (get z next)) same
              ∙ found
              ∙ ap (λ z. suc (occurrences z earlier)) (sym same))
        | inr e ↦
            let other : k ≢ name = λ q. differ k name e q in
            rw (e, get-entry_other name 0 (λ n. number) k other counts) (h k)
      ],
    )

-- The cast of a small number of methods keeps it.
slot_offset :
    (m : Mode) (slot : ℕ) → slot + 6 < u32_mod → add_u32 m (slot % u32_mod) 6 ≡ ok (slot + 6)
slot_offset m slot few =
    let small : slot % u32_mod ≡ slot = omega arith in
    ap (λ (n : ℕ). add_u32 m n 6) small ∙ add_u32_ok m slot 6 few

module _ (m : Mode) (reader : TypeReader) (fuel : ℕ) where
  -- A method whose name and attributes can be read.
  abbrev pub IsRead : Method → Type 0
  IsRead (r, name, deprecated) =
      (rust_name m reader fuel r ≡ ok name) × (is_deprecated m r ≡ ok deprecated)

  abbrev pub AreRead : InterfaceInfo × List Method → Type 0
  AreRead (info, ms) = (methods m info.def ≡ ok (map row ms)) × All IsRead ms

  number_methods_lem :
      (ms : List Method) (slot : ℕ) (earlier : List Text) (counts : OrderedMap ℕ)
      → Counts earlier counts
      → slot + length ms + 6 < u32_mod
      → length earlier + length ms < u32_mod
      → All IsRead ms
      → (last : OrderedMap ℕ) × (number_methods m reader fuel slot (map row ms) counts
          ≡ ok (infos_after earlier slot ms, last))
        × Counts (after_methods earlier ms) last
  unfolding number_methods
  number_methods_lem [] slot earlier counts h low few known = (counts, refl, h)
  number_methods_lem ((r, name, deprecated) ∷ rest) slot earlier counts h low few known =
      let (next, number, counted) = count_name_lem m earlier counts name h (omega arith) in
      let (last, e, h') =
        number_methods_lem rest (slot + 1) (name ∷ earlier) next counted (omega arith) (omega arith)
          known.1 in
      (last, rw (known.0.0, number, slot_offset m slot (omega arith), known.0.1, e) refl, h')

  number_interfaces_lem :
      (infos : List (InterfaceInfo × List Method)) (earlier : List Text) (counts : OrderedMap ℕ)
      → Counts earlier counts
      → length earlier + method_count infos + 6 < u32_mod
      → All AreRead infos
      → number_interfaces m reader fuel (map info_of infos) counts ≡ ok (all_infos earlier infos)
  unfolding number_interfaces
  number_interfaces_lem [] earlier counts h few known = refl
  number_interfaces_lem ((info, ms) ∷ rest) earlier counts h few known =
      let size = length-after_methods ms earlier in
      let (last, e, h') =
        number_methods_lem ms 0 earlier counts h (omega arith) (omega arith) known.0.1 in
      rw
        (
          known.0.0,
          e,
          number_interfaces_lem rest (after_methods earlier ms) last h' (omega arith) known.1,
        )
        refl

  -- For a list of interfaces whose methods, with their names and attributes, can be read and are fewer than 2 ^ 32 - 6 in all,
  -- starting with no names, in any build: every method
  -- gets its place in its own interface plus 6 as the slot in the table, and as the number of its overload one more than the
  -- number of methods of its name in front of it, in its own interface and in all earlier ones.
  pub number_interfaces-all_infos :
      (infos : List (InterfaceInfo × List Method))
      → method_count infos + 6 < u32_mod
      → All AreRead infos
      → number_interfaces m reader fuel (map info_of infos) [] ≡ ok (all_infos [] infos)
  unfolding get
  number_interfaces-all_infos infos few known =
      number_interfaces_lem infos [] [] (λ k. refl) (omega arith) known
