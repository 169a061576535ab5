-- ===== src/Runtime/Factory.antt =====
-- `factory` (src/runtime/factory_cache.rs) and `delay_load` (src/runtime/delay_load.rs): how the factory of a class is found. What the
-- system does is a record of functions; the libraries that are loaded stand in a list.
pub mod Search
use windows_rs.Base.{
  ℕ, zero, suc, List, [], ◌∷◌, ◌++◌, ◌==◌, if◌then◌else◌, Option, none, some, Fault, Outcome, ok,
  panic, ◌>>=◌, length,
}
use windows_rs.Base.Text.{Text, text, around_last_dot}
use windows_rs.Runtime.HResult.{Answer, good, err, Error, is_ok, and_some, from_code, Thread}

-- `CO_E_NOTINITIALIZED`
abbrev pub not_initialized : ℕ
not_initialized = 0x8004_01f0

-- `activate` is `RoGetActivationFactory` of combase, before and after the usage count of the apartment is raised: its code, and the
-- variable that it writes. `load` and `address` are `LoadLibraryA` and `GetProcAddress`, `last_error` is what the thread reports
-- and `thread` what it has of an error then, `export` the exported function, with the pointer that it writes, and `cast` asks the factory for its interface.
pub record System (Info F G : Type 0) : Type 0 where
  pub activate : ℕ × Option F
  pub activate_again : ℕ × Option F
  pub load : Text → Option ℕ
  pub address : ℕ → Option ℕ
  pub last_error : ℕ
  pub export : ℕ → Option G
  pub cast : G → Answer (Error Info) F
  pub thread : Thread Info

abbrev pub dll : Text
dll = text ".dll"

module _ {Info F G : Type 0} (system : System Info F G) where
  -- A library without the function is freed again.
  unfoldable pub load_with : Option ℕ → List ℕ → Answer ℕ ℕ × List ℕ
  load_with none loaded = (err system.last_error, loaded)
  load_with (some library) loaded = elim (system.address library) [
    | some address ↦ (good address, library ∷ loaded)
    | none ↦ (err system.last_error, loaded)
  ]

  unfoldable pub delay_load : Text → List ℕ → Answer ℕ ℕ × List ℕ
  unfolding load_with
  delay_load library loaded = load_with (system.load library) loaded

  -- What a library gives, if it has the function and that one returns a factory; with the libraries loaded then.
  unfoldable pub try_export : Answer ℕ ℕ × List ℕ → Option G × List ℕ
  try_export (good address, loaded) = (system.export address, loaded)
  try_export (err code, loaded) = (none, loaded)

  unfoldable pub try_library : Text → List ℕ → Option G × List ℕ
  unfolding delay_load try_export
  try_library path loaded = try_export (delay_load (path ++ dll) loaded)

  -- The loop that drops one suffix after another.
  unfoldable pub search : ℕ → Error Info → Text → List ℕ → Outcome (Answer (Error Info) F × List ℕ)
  unfolding around_last_dot try_library
  search zero original path loaded = panic Fault.out_of_fuel
  search (suc fuel) original path loaded = elim (around_last_dot path) [
    | none ↦ ok (err original, loaded)
    | some (before, after) ↦
        (let tried = try_library before loaded in
          let further = search fuel original before tried.1 in
          elim tried.0 [ none ↦ further | some g ↦ ok (system.cast g, tried.1) ])
  ]

  -- The code and the variable after the first attempt, and the second one where the library is not initialised.
  unfoldable pub activation : ℕ × Option F
  activation =
      if system.activate.0 == not_initialized then system.activate_again else system.activate

  -- `name` is the class's name, and the search takes at most a round for each byte of it, and one more.
  unfoldable pub factory : Text → List ℕ → Outcome (Answer (Error Info) F × List ℕ)
  unfolding activation is_ok and_some from_code search
  factory name loaded =
      let searched =
        search (suc (length name)) (from_code system.thread activation.0) name loaded in
      if is_ok activation.0
      then ok (and_some system.thread activation.0 activation.1, loaded)
      else searched
