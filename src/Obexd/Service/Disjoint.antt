-- ===== src/Obexd/Service/Disjoint.antt =====
-- src/service.c: what registering keeps of the services' bits.
use map_client.Base.{
  ℕ, ◌≡◌, ◌≢◌, bit_and, refl, sym, subst, ◌∙◌, some, List, [], ◌∷◌, ◌++◌, All, All-append, ◌==◌,
  arith, Option-cases, Bool-cases, ◌⊎◌, inl, inr,
}
use map_client.Base.BitAnd.{bit_and_comm}
use map_client.Obexd.Service.{
  ServiceDriver, list_from, service_driver_list, service_driver_register,
}

-- No two drivers share a bit.
abbrev pub IsApart : ServiceDriver → ServiceDriver → Type 0
IsApart d e = bit_and d.service e.service ≡ 0

abbrev pub IsDisjoint : List ServiceDriver → Type 0
IsDisjoint [] = Unit {0}
IsDisjoint (d ∷ ds) = All (IsApart d) ds × IsDisjoint ds

List-cases :
    (l : List ServiceDriver)
    → (l ≡ []) ⊎ ((d : ServiceDriver) × (ds : List ServiceDriver) × (l ≡ d ∷ ds))
List-cases [] = inl refl
List-cases (d ∷ ds) = inr (d, ds, refl)

list_from-apart :
    (ds : List ServiceDriver) (services : ℕ)
    → services ≢ 0
    → list_from ds services ≡ []
    → All (λ d. bit_and d.service services ≡ 0) ds
unfolding list_from
list_from-apart [] services some_ h = tt
list_from-apart (d ∷ ds) services some_ h = elim (Bool-cases (bit_and d.service services == 0)) [
  | inl apart ↦ (ground arith, list_from-apart ds services some_ (ground arith))
  | inr shared ↦ absurd (ground arith)
]

All-map :
    {P Q : ServiceDriver → Type 0} (ds : List ServiceDriver)
    → ((d : ServiceDriver) → P d → Q d)
    → All P ds
    → All Q ds
All-map [] f h = tt
All-map (d ∷ ds) f (here, h) = (f d here, All-map ds f h)

IsDisjoint-append :
    (ds : List ServiceDriver) (d : ServiceDriver)
    → IsDisjoint ds
    → All (λ e. IsApart e d) ds
    → IsDisjoint (ds ++ (d ∷ []))
IsDisjoint-append [] d h k = (tt, tt)
IsDisjoint-append (e ∷ es) d (here, h) (apart, k) =
    (All-append (IsApart e) es (d ∷ []) here (apart, tt), IsDisjoint-append es d h k)

-- Registering keeps the drivers' service bits apart, whether the driver is taken, in front or behind, or
-- refused, when the driver has a service at all.
pub service_driver_register-IsDisjoint :
    (ds : List ServiceDriver) (d : ServiceDriver)
    → d.service ≢ 0
    → IsDisjoint ds
    → IsDisjoint (service_driver_register ds (some d)).0
service_driver_register-IsDisjoint ds d some_ h =
    elim (List-cases (service_driver_list ds d.service)) [
      | inl free ↦
          let apart = list_from-apart ds d.service some_ (ground arith) in
          elim (Option-cases d.who.ptr) [
            | inl behind ↦
                let result : (service_driver_register ds (some d)).0 ≡ ds ++ (d ∷ []) =
                  unfold service_driver_register in ground arith in
                subst IsDisjoint (sym result) (IsDisjoint-append ds d h apart)
            | inr (_, front) ↦
                let result : (service_driver_register ds (some d)).0 ≡ d ∷ ds =
                  unfold service_driver_register in ground arith in
                subst IsDisjoint (sym result)
                  (All-map ds (λ e p. bit_and_comm d.service e.service ∙ p) apart, h)
          ]
      | inr (_, _, taken) ↦
          let result : (service_driver_register ds (some d)).0 ≡ ds =
            unfold service_driver_register in ground arith in
          subst IsDisjoint (sym result) h
    ]
