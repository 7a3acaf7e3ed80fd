-- ===== src/Vcard/Contact/Width.antt =====
-- plugins/vcard.c: how wide the lines of a vCard are.
use map_client.Base.{
  ℕ, refl, Bool, ◌&&◌, ◌||◌, not, Option, some, none, List, [], ◌∷◌, All, ◌==◌, if◌then◌else◌,
}
use map_client.Base.Endian.{Bytes}
use map_client.Vcard.Words
use map_client.Vcard.Print.{format_vcard30}
use map_client.Vcard.Print.Width.{IsLines, IsLines-append, vcard_printf-IsLines}
use map_client.Vcard.Fields.{
  PhonebookContact, PhonebookField, PhonebookAddr, is_empty, vcard_printf_number, vcard_printf_tag,
  vcard_printf_email, vcard_printf_url, vcard_printf_address,
}
use map_client.Vcard.Fields.Width.{no-IsLines, IsShort, short}
use map_client.Vcard.Fields.Lines.{
  either-IsLines, begin-IsLines, name-IsLines, fullname-IsLines, number-IsLines, email-IsLines,
  url-IsLines, org-IsLines, address-IsLines, datetime-IsLines, tag-IsLines,
}
use map_client.Vcard.Contact

each-IsLines :
    {A : Type 0} (f : A → Bytes) (as_ : List A)
    → ((a : A) → IsLines (f a))
    → IsLines (Contact.each f as_)
each-IsLines f [] h = no-IsLines
each-IsLines f (a ∷ as_) h = IsLines-append (f a) (Contact.each f as_) (h a) (each-IsLines f as_ h)

parts-IsLines : (parts : List Bytes) → All IsLines parts → IsLines (Contact.each (λ t. t) parts)
parts-IsLines [] h = no-IsLines
parts-IsLines (p ∷ ps) (here, h) =
    IsLines-append p (Contact.each (λ t. t) ps) here (parts-IsLines ps h)

when-IsLines : (b : Bool) (x : Bytes) → IsLines x → IsLines (if b then x else [])
when-IsLines b x h = either-IsLines b x [] h no-IsLines

module _ (utf8 : Bytes → Option (List ℕ)) (stack : Bytes) where
  when_tag-IsLines :
      (asked : Bool) (format : ℕ) (tag text : Bytes)
      → IsShort tag
      → IsLines (Contact.when_tag utf8 stack asked format tag text)
  when_tag-IsLines asked format tag text h =
      when-IsLines (asked && not (is_empty text))
        (vcard_printf_tag utf8 stack format (some tag) none (some text))
        (tag-IsLines utf8 stack format tag (some text) h)

  numbers-IsLines :
      (format : ℕ) (ns : List PhonebookField) → IsLines (Contact.add_numbers utf8 stack format ns)
  unfolding Contact.add_numbers
  numbers-IsLines format [] = number-IsLines utf8 stack format none 1 4
  numbers-IsLines format (n ∷ ns) =
      each-IsLines (λ m. vcard_printf_number utf8 stack format m.text 1 m.type) (n ∷ ns)
        (λ m. number-IsLines utf8 stack format m.text 1 m.type)

  -- Every line of a vCard has at most 76 bytes before its break, and the last line is ended, whatever the
  -- contact, the filter and the format.
  pub phonebook_add_contact-IsLines :
      (c : PhonebookContact) (filter format : ℕ)
      → IsLines (Contact.phonebook_add_contact utf8 stack c filter format)
  unfolding Contact.phonebook_add_contact
  phonebook_add_contact-IsLines c asked format =
      let filter = Contact.effective_filter format asked in
      let email = λ (e : PhonebookField). vcard_printf_email utf8 stack format e.text e.type in
      let url = λ (u : PhonebookField). vcard_printf_url utf8 stack format u.text u.type in
      let address = λ (a : PhonebookAddr). vcard_printf_address utf8 stack format (some a) in
      let has = Contact.has filter in
      let tag = λ (flag : ℕ) (name text : Bytes) (h : IsShort name).
        when_tag-IsLines (has flag) format name text h in
      let uid = tag Contact.filter_uid Words.uid_tag c.uid (short Words.uid_tag refl) in
      let name = when-IsLines (has Contact.filter_n) _ (name-IsLines utf8 stack format c) in
      let fullname =
        when-IsLines
          (has Contact.filter_fn && (not (is_empty c.fullname) || format == format_vcard30)) _
          (fullname-IsLines utf8 stack format (some c.fullname)) in
      let numbers = when-IsLines (has Contact.filter_tel) _ (numbers-IsLines format c.numbers) in
      let emails =
        when-IsLines (has Contact.filter_email) _
          (each-IsLines email c.emails (λ e. email-IsLines utf8 stack format e.text e.type)) in
      let addresses =
        when-IsLines (has Contact.filter_adr) _
          (each-IsLines address c.addresses (λ a. address-IsLines utf8 stack format (some a))) in
      let birthday =
        tag Contact.filter_bday Words.bday_tag c.birthday (short Words.bday_tag refl) in
      let nickname =
        tag Contact.filter_nickname Words.nickname_tag c.nickname (short Words.nickname_tag refl) in
      let urls =
        when-IsLines (has Contact.filter_url) _
          (each-IsLines url c.urls (λ u. url-IsLines utf8 stack format u.text u.type)) in
      let photo = tag Contact.filter_photo Words.photo_tag c.photo (short Words.photo_tag refl) in
      let org = when-IsLines (has Contact.filter_org) _ (org-IsLines utf8 stack format c) in
      let role = tag Contact.filter_role Words.role_tag c.role (short Words.role_tag refl) in
      let title = tag Contact.filter_title Words.title_tag c.title (short Words.title_tag refl) in
      let datetime =
        when-IsLines (has Contact.filter_x_irmc_call_datetime) _
          (datetime-IsLines utf8 stack format c) in
      let rear : All IsLines (_ ∷ _ ∷ _ ∷ _ ∷ _ ∷ _ ∷ []) =
        (photo, (org, (role, (title, (datetime, (vcard_printf-IsLines Words.end_vcard, tt)))))) in
      parts-IsLines (Contact.contact_parts utf8 stack c filter format) (
        begin-IsLines utf8 stack format,
        (
          uid,
          (
            name,
            (fullname, (numbers, (emails, (addresses, (birthday, (nickname, (urls, rear))))))),
          ),
        ),
      )
