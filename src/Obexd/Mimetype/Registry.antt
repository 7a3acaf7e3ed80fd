-- ===== src/Obexd/Mimetype/Registry.antt =====
-- The registry of drivers: what registering does to the lookups.
use map_client.Base.{
  ℕ, ◌≡◌, ◌≢◌, refl, sym, ap, subst, inl, inr, Bool, true, Option, some, none, List, [], ◌∷◌, ◌++◌,
  All, All-append, arith, Option-cases,
}
use map_client.Base.Endian.{Bytes}
use map_client.Obexd.Blob.{Blob, memncmp0_refl}
use map_client.Obexd.Mimetype.{
  MimeTypeDriver, same_mimetype, find_driver, or_else, with_watch, driver_register,
  driver_unregister, eperm,
}

-- What is relied on of g_ascii_strcasecmp.
pub record IsComparing (same_type : Bytes → Bytes → Bool) : Type 0 where
  pub reflexive : (a : Bytes) → same_type a a ≡ true
  pub congruent : (a b c : Bytes) → same_type a b ≡ true → same_type c a ≡ same_type c b

with_watch-keys :
    (d : MimeTypeDriver)
    → ((with_watch d).target ≡ d.target)
      × ((with_watch d).mimetype ≡ d.mimetype)
      × ((with_watch d).who ≡ d.who)
with_watch-keys d = ground arith

module _ (same_type : Bytes → Bytes → Bool) where
  abbrev pub asks_for : List MimeTypeDriver → MimeTypeDriver → Option MimeTypeDriver
  asks_for ds d = find_driver same_type ds d.target d.mimetype d.who

  same_mimetype_refl :
      IsComparing same_type → (m : Option Bytes) → same_mimetype same_type m m ≡ true
  same_mimetype_refl laws none = refl
  same_mimetype_refl laws (some a) = laws.reflexive a

  find_driver-append :
      (ds es : List MimeTypeDriver) (t : Blob) (m : Option Bytes) (w : Blob)
      → find_driver same_type (ds ++ es) t m w
        ≡ or_else (find_driver same_type ds t m w) (find_driver same_type es t m w)
  unfolding find_driver
  find_driver-append [] es t m w = refl
  find_driver-append (d ∷ ds) es t m w = ground (arith, find_driver-append ds es t m w)

  -- Registering a driver that is not known yet: it is found by its keys, and whatever was found before
  -- is found still. One whose keys are taken, or none at all, is refused and nothing changes.
  pub driver_register-find_driver :
      (ds : List MimeTypeDriver) (d : MimeTypeDriver)
      → IsComparing same_type
      → (asks_for ds d ≡ none
          → (driver_register same_type ds (some d) ≡ (ds ++ (with_watch d ∷ []), 0))
            × (asks_for (driver_register same_type ds (some d)).0 d ≡ some (with_watch d)))
        × (asks_for ds d ≢ none → driver_register same_type ds (some d) ≡ (ds, eperm))
        × ((t : Blob) (m : Option Bytes) (w : Blob) (e : MimeTypeDriver)
            → find_driver same_type ds t m w ≡ some e
            → find_driver same_type (driver_register same_type ds (some d)).0 t m w ≡ some e)
  unfolding driver_register
  driver_register-find_driver ds d laws =
      let last : find_driver same_type (with_watch d ∷ []) d.target d.mimetype d.who
          ≡ some (with_watch d) =
        let (t, m, w) = with_watch-keys d in
        unfold find_driver in
        ground (
          arith,
          memncmp0_refl d.target,
          memncmp0_refl d.who,
          same_mimetype_refl laws d.mimetype,
        ) in
      let grown = find_driver-append ds (with_watch d ∷ []) in
      (
        λ free. (ground arith, ground (arith, grown d.target d.mimetype d.who)),
        λ taken. ground arith,
        λ t m w e was. ground (arith, grown t m w),
      )

  find_driver-unregister :
      (ds : List MimeTypeDriver) (id : ℕ) (t : Blob) (m : Option Bytes) (w : Blob)
      (e : MimeTypeDriver)
      → find_driver same_type ds t m w ≡ some e
      → e.id ≢ id
      → find_driver same_type (driver_unregister ds id) t m w ≡ some e
  unfolding find_driver driver_unregister
  find_driver-unregister [] id t m w e found other = absurd (ground arith)
  find_driver-unregister (d ∷ ds) id t m w e found other =
      ground (arith, find_driver-unregister ds id t m w e)

  -- Nobody stands in front of a driver of the list: each is found by its own keys.
  abbrev pub IsUnshadowed : List MimeTypeDriver → List MimeTypeDriver → Type 0
  IsUnshadowed all ds = All (λ d. asks_for all d ≡ some d) ds

  IsUnshadowed-grow :
      (all more : List MimeTypeDriver) (ds : List MimeTypeDriver)
      → IsUnshadowed all ds
      → IsUnshadowed (all ++ more) ds
  IsUnshadowed-grow all more [] h = tt
  IsUnshadowed-grow all more (d ∷ ds) (here, h) = (
    ground (arith, find_driver-append all more d.target d.mimetype d.who),
    IsUnshadowed-grow all more ds h,
  )

  -- Registering keeps every driver reachable by its own keys, whether the driver is taken or refused.
  pub driver_register-IsUnshadowed :
      (ds : List MimeTypeDriver) (d : MimeTypeDriver)
      → IsComparing same_type
      → IsUnshadowed ds ds
      → IsUnshadowed
          (driver_register same_type ds (some d)).0
          (driver_register same_type ds (some d)).0
  driver_register-IsUnshadowed ds d laws h =
      let (fresh, taken, _) = driver_register-find_driver ds d laws in
      elim (Option-cases (asks_for ds d)) [
        | inl free ↦
            let (list, last) = fresh free in
            let grown = ap (λ r. r.0) list in
            let (t, m, w) = with_watch-keys d in
            let here : asks_for (ds ++ (with_watch d ∷ [])) (with_watch d) ≡ some (with_watch d) =
              rw (t, m, w) (subst (λ l. asks_for l d ≡ some (with_watch d)) grown last) in
            subst (λ l. IsUnshadowed l l) (sym grown)
              (All-append (λ e. asks_for (ds ++ (with_watch d ∷ [])) e ≡ some e) ds
                (with_watch d ∷ []) (IsUnshadowed-grow ds (with_watch d ∷ []) ds h) (here, tt))
        | inr (e, known) ↦
            let same = ap (λ r. r.0) (taken (λ none. cc)) in
            subst (λ l. IsUnshadowed l l) (sym same) h
      ]
