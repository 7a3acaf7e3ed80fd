-- ===== src/Obexd/Service.antt =====
-- src/service.c: the drivers of the services.
pub mod Disjoint
use map_client.Base.{
  ℕ, ◌-◌, bit_and, Bool, true, false, ◌&&◌, not, Option, some, none, List, [], ◌∷◌, ◌++◌, ◌==◌,
  if◌then◌else◌,
}
use map_client.Obexd.Blob.{Blob, memncmp0}
use map_client.Obexd.Mimetype.{eperm, einval}

-- `id` is the driver's address. The functions and the record are left out.
pub record ServiceDriver : Type 0 where
  pub id : ℕ
  pub service : ℕ
  pub target : Blob
  pub who : Blob

-- Who is asked for only when it is not null.
abbrev pub serves : (target who : Blob) → ServiceDriver → Bool
serves target who d =
    (elim who.ptr [ none ↦ true | some _ ↦ memncmp0 who d.who ]) && memncmp0 target d.target

unfoldable pub service_driver_find : List ServiceDriver → (target who : Blob) → Option ServiceDriver
service_driver_find [] target who = none
service_driver_find (d ∷ ds) target who =
    let rest = service_driver_find ds target who in if serves target who d then some d else rest

-- `services &= ~service`.
abbrev pub clear_bits : (services service : ℕ) → ℕ
clear_bits services service = services - bit_and services service

unfoldable pub list_from : List ServiceDriver → (services : ℕ) → List ServiceDriver
list_from [] services = []
list_from (d ∷ ds) services =
    let taken = list_from ds (clear_bits services d.service) in
    let rest = list_from ds services in
    if services == 0 then [] else if bit_and d.service services == 0 then rest else d ∷ taken

abbrev pub service_driver_list : List ServiceDriver → (services : ℕ) → List ServiceDriver
service_driver_list ds services = if services == 0 then ds else list_from ds services

-- The new list, and 0 or an errno. Drivers that support who have priority.
unfoldable pub service_driver_register :
    List ServiceDriver → Option ServiceDriver → List ServiceDriver × ℕ
service_driver_register ds none = (ds, einval)
service_driver_register ds (some d) = elim (service_driver_list ds d.service) [
  | _ ∷ _ ↦ (ds, eperm)
  | [] ↦ (elim d.who.ptr [ some _ ↦ d ∷ ds | none ↦ ds ++ (d ∷ []) ], 0)
]

unfoldable pub service_driver_unregister : List ServiceDriver → ℕ → List ServiceDriver
service_driver_unregister [] id = []
service_driver_unregister (d ∷ ds) id =
    let rest = service_driver_unregister ds id in if d.id == id then ds else d ∷ rest
