-- ===== src/Vcard/Contact.antt =====
-- plugins/vcard.c: phonebook_add_contact.
pub mod Width
use map_client.Base.{
  ℕ, zero, suc, ◌+◌, ◌*◌, ◌^◌, bit_and, bit_or, Bool, true, false, ◌&&◌, ◌||◌, not, Option, some,
  none, List, [], ◌∷◌, ◌++◌, ◌==◌, if◌then◌else◌,
}
use map_client.Base.Endian.{Bytes}
use map_client.Vcard.Words
use map_client.Vcard.Print.{format_vcard21, format_vcard30}
use map_client.Vcard.Fields.{
  PhonebookContact, PhonebookField, PhonebookAddr, is_empty, vcard_printf_begin, vcard_printf_end,
  vcard_printf_name, vcard_printf_fullname, vcard_printf_number, vcard_printf_tag,
  vcard_printf_email, vcard_printf_url, vcard_printf_org, vcard_printf_address,
  vcard_printf_datetime,
}

abbrev pub filter_version : ℕ
filter_version = 2 ^ 0

abbrev pub filter_fn : ℕ
filter_fn = 2 ^ 1

abbrev pub filter_n : ℕ
filter_n = 2 ^ 2

abbrev pub filter_photo : ℕ
filter_photo = 2 ^ 3

abbrev pub filter_bday : ℕ
filter_bday = 2 ^ 4

abbrev pub filter_adr : ℕ
filter_adr = 2 ^ 5

abbrev pub filter_tel : ℕ
filter_tel = 2 ^ 7

abbrev pub filter_email : ℕ
filter_email = 2 ^ 8

abbrev pub filter_title : ℕ
filter_title = 2 ^ 12

abbrev pub filter_role : ℕ
filter_role = 2 ^ 13

abbrev pub filter_org : ℕ
filter_org = 2 ^ 16

abbrev pub filter_url : ℕ
filter_url = 2 ^ 20

abbrev pub filter_uid : ℕ
filter_uid = 2 ^ 21

abbrev pub filter_nickname : ℕ
filter_nickname = 2 ^ 23

abbrev pub filter_x_irmc_call_datetime : ℕ
filter_x_irmc_call_datetime = 2 ^ 28

-- What takes the place of a filter that asks for nothing, or of an unknown format's.
abbrev pub filter_default : ℕ
filter_default =
    filter_version + filter_uid + filter_n + filter_fn + filter_tel + filter_email + filter_adr
    + filter_bday + filter_nickname + filter_url + filter_photo + filter_org + filter_role
    + filter_title + filter_x_irmc_call_datetime

unfoldable pub effective_filter : (format filter : ℕ) → ℕ
effective_filter format filter =
    if format == format_vcard30 && not (filter == 0)
    then bit_or filter (filter_version + filter_fn + filter_n + filter_tel)
    else if format == format_vcard21 && not (filter == 0)
    then bit_or filter (filter_version + filter_n + filter_tel)
    else filter_default

abbrev pub has : (filter flag : ℕ) → Bool
has filter flag = not (bit_and filter flag == 0)

abbrev pub each : {A : Type 0} → (A → Bytes) → List A → Bytes
each f [] = []
each f (a ∷ as_) = f a ++ each f as_

module _ (utf8 : Bytes → Option (List ℕ)) (stack : Bytes) where
  abbrev pub when_tag : (asked : Bool) (format : ℕ) (tag text : Bytes) → Bytes
  when_tag asked format tag text =
      if asked && not (is_empty text)
      then vcard_printf_tag utf8 stack format (some tag) none (some text)
      else []

  unfoldable pub add_numbers : (format : ℕ) → List PhonebookField → Bytes
  add_numbers format [] = vcard_printf_number utf8 stack format none 1 4
  add_numbers format (number ∷ numbers) =
      each (λ n. vcard_printf_number utf8 stack format n.text 1 n.type) (number ∷ numbers)

  -- The texts that are appended, in their order.
  abbrev pub contact_parts : PhonebookContact → (filter format : ℕ) → List Bytes
  contact_parts c filter format =
      vcard_printf_begin format
      ∷ when_tag (has filter filter_uid) format Words.uid_tag c.uid
      ∷ (if has filter filter_n then vcard_printf_name utf8 stack format c else [])
      ∷ (if has filter filter_fn && (not (is_empty c.fullname) || format == format_vcard30)
          then vcard_printf_fullname utf8 stack format (some c.fullname)
          else [])
      ∷ (if has filter filter_tel then add_numbers format c.numbers else [])
      ∷ (if has filter filter_email
          then each (λ e. vcard_printf_email utf8 stack format e.text e.type) c.emails
          else [])
      ∷ (if has filter filter_adr
          then each (λ a. vcard_printf_address utf8 stack format (some a)) c.addresses
          else [])
      ∷ when_tag (has filter filter_bday) format Words.bday_tag c.birthday
      ∷ when_tag (has filter filter_nickname) format Words.nickname_tag c.nickname
      ∷ (if has filter filter_url
          then each (λ u. vcard_printf_url utf8 stack format u.text u.type) c.urls
          else [])
      ∷ when_tag (has filter filter_photo) format Words.photo_tag c.photo
      ∷ (if has filter filter_org then vcard_printf_org utf8 stack format c else [])
      ∷ when_tag (has filter filter_role) format Words.role_tag c.role
      ∷ when_tag (has filter filter_title) format Words.title_tag c.title
      ∷ (if has filter filter_x_irmc_call_datetime
          then vcard_printf_datetime utf8 stack format c
          else [])
      ∷ vcard_printf_end
      ∷ []

  unfoldable pub phonebook_add_contact : PhonebookContact → (filter format : ℕ) → Bytes
  phonebook_add_contact c filter format =
      each (λ text. text) (contact_parts c (effective_filter format filter) format)
