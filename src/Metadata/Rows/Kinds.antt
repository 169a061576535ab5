-- ===== src/Metadata/Rows/Kinds.antt =====
-- The kinds of types exclude one another.
use windows_rs.Base.{◌≡◌, refl, Bool, true, false, not, Outcome, ok, panic, ◌>>=◌, Mode}
use windows_rs.Metadata.Types.{TypeDef}
use windows_rs.Metadata.Rows.TypeDefs.{TypeKind, kind, is_nullable, is_primitive, is_udt}
use windows_rs.Metadata.Rows.Attributes.{is_handle}

by_kind :
    (found : Outcome TypeKind) (handle : Outcome Bool)
    → (found >>= λ k. ok (elim k [ TypeKind.enum ↦ false | TypeKind.struct ↦ false | _ ↦ true ]))
      ≡ ok true
    → ((found >>= λ k. ok (elim k [ TypeKind.enum ↦ true | _ ↦ false ])) ≡ ok false)
      × ((found >>= λ k. elim k [ TypeKind.struct ↦ (handle >>= λ h. ok (not h)) | _ ↦ ok false ])
          ≡ ok false)
by_kind (panic e) handle h = cc
by_kind (ok TypeKind.interface) handle h = (refl, refl)
by_kind (ok TypeKind.class) handle h = (refl, refl)
by_kind (ok TypeKind.delegate) handle h = (refl, refl)
by_kind (ok TypeKind.enum) handle h = cc
by_kind (ok TypeKind.struct) handle h = cc

-- A type that can be null, an interface, a class or a delegate, is neither an enumeration nor a user-defined structure.
pub is_nullable-others :
    (m : Mode) (d : TypeDef)
    → is_nullable m d ≡ ok true
    → (is_primitive m d ≡ ok false) × (is_udt m d ≡ ok false)
unfolding is_nullable is_primitive is_udt
is_nullable-others m d h = by_kind (kind m d) (is_handle m d) h
