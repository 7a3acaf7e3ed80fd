-- ===== src/Obexd/Mimetype.antt =====
-- src/mimetype.c: the drivers for objects, by target, MIME type and who, and the watches on objects.
pub mod Registry
pub mod Watches
use map_client.Base.{
  ℕ, Bool, true, false, ◌&&◌, Option, some, none, List, [], ◌∷◌, ◌++◌, ◌==◌, not, if◌then◌else◌,
}
use map_client.Base.Endian.{Bytes}
use map_client.Obexd.Blob.{Blob, null_blob, memncmp0}

-- The driver's function for watches: none, its own, or the one of this file.
pub data SetIoWatch : Type 0 where
  unset own default_watch : SetIoWatch

-- `id` is the driver's address. The functions that the registry does not call are left out.
pub record MimeTypeDriver : Type 0 where
  pub id : ℕ
  pub target : Blob
  pub mimetype : Option Bytes
  pub who : Blob
  pub set_io_watch : SetIoWatch

-- The errno values that are returned with a minus sign.
abbrev pub eperm : ℕ
eperm = 1

abbrev pub einval : ℕ
einval = 22

abbrev pub or_else : Option MimeTypeDriver → Option MimeTypeDriver → Option MimeTypeDriver
or_else (some d) other = some d
or_else none other = other

abbrev pub with_watch : MimeTypeDriver → MimeTypeDriver
with_watch d = elim d.set_io_watch [ unset ↦ record d { set_io_watch = default_watch } | _ ↦ d ]

-- Whether g_ascii_strcasecmp gives 0 is a parameter.
module _ (same_type : Bytes → Bytes → Bool) where
  -- Two null pointers are the same.
  abbrev pub same_mimetype : Option Bytes → Option Bytes → Bool
  same_mimetype none none = true
  same_mimetype none (some b) = false
  same_mimetype (some a) none = false
  same_mimetype (some a) (some b) = same_type a b

  abbrev pub matches : Blob → Option Bytes → Blob → MimeTypeDriver → Bool
  matches target mimetype who d =
      memncmp0 target d.target && (memncmp0 who d.who && same_mimetype mimetype d.mimetype)

  unfoldable pub find_driver :
      List MimeTypeDriver → Blob → Option Bytes → Blob → Option MimeTypeDriver
  find_driver [] target mimetype who = none
  find_driver (d ∷ ds) target mimetype who =
      let rest = find_driver ds target mimetype who in
      if matches target mimetype who d then some d else rest

  -- The fallbacks: without who, the target's default, the general default.
  unfoldable pub driver_find :
      List MimeTypeDriver → Blob → Option Bytes → Blob → Option MimeTypeDriver
  driver_find ds target mimetype who =
      let without_who : Option MimeTypeDriver = elim who.ptr [
        | none ↦ none
        | some _ ↦ find_driver ds target mimetype null_blob
      ] in
      let target_default : Option MimeTypeDriver = elim mimetype [
        | none ↦ none
        | some _ ↦ find_driver ds target none null_blob
      ] in
      or_else (find_driver ds target mimetype who)
        (or_else without_who (or_else target_default (find_driver ds null_blob none null_blob)))

  -- The new list, and 0 or an errno.
  unfoldable pub driver_register :
      List MimeTypeDriver → Option MimeTypeDriver → List MimeTypeDriver × ℕ
  driver_register ds none = (ds, einval)
  driver_register ds (some d) = elim (find_driver ds d.target d.mimetype d.who) [
    | some _ ↦ (ds, eperm)
    | none ↦ (ds ++ (with_watch d ∷ []), 0)
  ]

-- g_slist_find and g_slist_remove, by address.
unfoldable pub driver_unregister : List MimeTypeDriver → ℕ → List MimeTypeDriver
driver_unregister [] id = []
driver_unregister (d ∷ ds) id =
    let rest = driver_unregister ds id in if d.id == id then ds else d ∷ rest
