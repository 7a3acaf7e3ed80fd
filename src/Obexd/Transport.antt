-- ===== src/Obexd/Transport.antt =====
-- src/transport.c: the drivers of the transports.
use map_client.Base.{
  ℕ, ◌≡◌, refl, sym, subst, Bool, true, false, Option, some, none, List, [], ◌∷◌, ◌==◌,
  if◌then◌else◌, arith, Option-cases, inl, inr,
}
use map_client.Base.Endian.{Bytes}
use map_client.Obexd.Blob.{same_bytes}
use map_client.Obexd.Mimetype.{eperm, einval}

-- `id` is the driver's address. The functions are left out.
pub record TransportDriver : Type 0 where
  pub id : ℕ
  pub name : Option Bytes
  pub service : ℕ

-- Whether g_strcmp0 gives 0.
abbrev pub same_name : Option Bytes → Option Bytes → Bool
same_name none none = true
same_name none (some b) = false
same_name (some a) none = false
same_name (some a) (some b) = same_bytes a b

unfoldable pub transport_driver_find : List TransportDriver → Option Bytes → Option TransportDriver
transport_driver_find [] name = none
transport_driver_find (d ∷ ds) name =
    let rest = transport_driver_find ds name in if same_name name d.name then some d else rest

unfoldable pub transport_driver_register :
    List TransportDriver → Option TransportDriver → List TransportDriver × ℕ
transport_driver_register ds none = (ds, einval)
transport_driver_register ds (some d) = elim (transport_driver_find ds d.name) [
  | some _ ↦ (ds, eperm)
  | none ↦ (d ∷ ds, 0)
]

unfoldable pub transport_driver_unregister : List TransportDriver → ℕ → List TransportDriver
transport_driver_unregister [] id = []
transport_driver_unregister (d ∷ ds) id =
    let rest = transport_driver_unregister ds id in if d.id == id then ds else d ∷ rest

-- Each name stands once, as a lookup in what is behind it tells.
abbrev pub IsNamedOnce : List TransportDriver → Type 0
IsNamedOnce [] = Unit {0}
IsNamedOnce (d ∷ ds) = (transport_driver_find ds d.name ≡ none) × IsNamedOnce ds

pub transport_driver_register-IsNamedOnce :
    (ds : List TransportDriver) (d : Option TransportDriver)
    → IsNamedOnce ds
    → IsNamedOnce (transport_driver_register ds d).0
unfolding transport_driver_register
transport_driver_register-IsNamedOnce ds none h = h
transport_driver_register-IsNamedOnce ds (some d) h =
    elim (Option-cases (transport_driver_find ds d.name)) [
      | inl free ↦
          let result : (transport_driver_register ds (some d)).0 ≡ d ∷ ds = ground arith in
          subst IsNamedOnce (sym result) (free, h)
      | inr (_, taken) ↦
          let result : (transport_driver_register ds (some d)).0 ≡ ds = ground arith in
          subst IsNamedOnce (sym result) h
    ]

find-unregister :
    (ds : List TransportDriver) (id : ℕ) (name : Option Bytes)
    → transport_driver_find ds name ≡ none
    → transport_driver_find (transport_driver_unregister ds id) name ≡ none
unfolding transport_driver_find transport_driver_unregister
find-unregister [] id name h = refl
find-unregister (d ∷ ds) id name h = ground (arith, find-unregister ds id name)

pub transport_driver_unregister-IsNamedOnce :
    (ds : List TransportDriver) (id : ℕ)
    → IsNamedOnce ds
    → IsNamedOnce (transport_driver_unregister ds id)
unfolding transport_driver_unregister
transport_driver_unregister-IsNamedOnce [] id h = tt
transport_driver_unregister-IsNamedOnce (d ∷ ds) id (free, h) =
    ground (arith, find-unregister ds id d.name, transport_driver_unregister-IsNamedOnce ds id h)
