-- ===== src/Vcard/Fields/Lines.antt =====
-- plugins/vcard.c: how wide the lines of the properties are.
use map_client.Base.{
  ℕ, ◌≤◌, ◌≡◌, inl, inr, refl, sym, subst, Bool, ◌&&◌, ◌||◌, not, Option, some, none, List, [], ◌∷◌,
  ◌++◌, append-nil, length, length-append, ◌==◌, if◌then◌else◌, arith, Bool-cases,
}
use map_client.Base.Endian.{Bytes}
use map_client.Vcard.Words
use map_client.Vcard.Print.{vcard_printf, printed, format_vcard21, format_vcard30}
use map_client.Vcard.Print.Width.{IsLines, IsLines-append, vcard_printf-IsLines}
use map_client.Vcard.Escape.{len_max}
use map_client.Vcard.Qp.{vcard_qp_print_encoded, select_qp_encoding, charset, utf8_select}
use map_client.Vcard.Qp.Width.{vcard_qp_print_encoded-IsLines}
use map_client.Vcard.Fields.{
  PhonebookContact, PhonebookAddr, Str, text_of, is_empty, before_null, number_words, email_words,
  url_words, address_words, calltype_words, org_fields_present, contact_fields_present, starts_with,
  type_international, vcard_printf_begin, vcard_printf_name, vcard_printf_fullname,
  vcard_printf_number, vcard_printf_tag, vcard_printf_email, vcard_printf_url, vcard_printf_org,
  vcard_printf_address, vcard_printf_datetime, printf_call,
}
use map_client.Vcard.Fields.Width.{
  if_holds, no-IsLines, IsShort, short, printed-IsShort, tagged, IsTagged, number_words-IsTagged,
  email_words-IsTagged, url_words-IsTagged, address_words-IsTagged,
}

pub either-IsLines : (b : Bool) (x y : Bytes) → IsLines x → IsLines y → IsLines (if b then x else y)
either-IsLines = if_holds IsLines

abbrev pub IsCall : Option Bytes → Type 0
IsCall none = Unit {0}
IsCall (some type) = IsTagged Words.datetime_tag type

module _ (utf8 : Bytes → Option (List ℕ)) where
  charset_bound : (fields : List Bytes) → length (charset utf8 fields) ≤ 14
  unfolding charset
  charset_bound [] = omega arith
  charset_bound (field ∷ fields) = elim (Bool-cases (utf8_select utf8 field)) [
    | inl wide ↦ rw wide (omega arith)
    | inr narrow ↦ rw narrow (charset_bound fields)
  ]

  qp-IsLines :
      (desc : Bytes) (fields : List Bytes)
      → IsShort desc
      → IsLines (vcard_qp_print_encoded utf8 desc fields)
  qp-IsLines desc fields (h, clean) =
      let rest = charset utf8 fields ++ Words.colon in
      vcard_qp_print_encoded-IsLines utf8 desc fields
        (omega (
          arith,
          charset_bound fields,
          length-append desc (Words.encoding_qp ++ rest),
          length-append Words.encoding_qp rest,
          length-append (charset utf8 fields) Words.colon,
        ))
        clean

  -- A property is quoted-printable under a short name, or plain.
  encoded-IsLines :
      (b : Bool) (desc : Bytes) (fields : List Bytes) (plain : Bytes)
      → IsShort desc
      → IsLines (if b then vcard_qp_print_encoded utf8 desc fields else vcard_printf plain)
  encoded-IsLines b desc fields plain h =
      either-IsLines b (vcard_qp_print_encoded utf8 desc fields) (vcard_printf plain)
        (qp-IsLines desc fields h) (vcard_printf-IsLines plain)

  -- The same under the tag and its words, cut to the buffer.
  tagged-IsLines :
      (b : Bool) (tag words : Bytes) (fields : List Bytes) (plain : Bytes)
      → IsTagged tag words
      → IsLines (
          if b
          then vcard_qp_print_encoded utf8
              (printed len_max (tag ++ (Words.semicolon ++ words)))
              fields
          else vcard_printf plain)
  tagged-IsLines b tag words fields plain h =
      let desc = tag ++ (Words.semicolon ++ words) in
      encoded-IsLines b (printed len_max desc) fields plain (printed-IsShort desc h.fits)

  -- A property that is printed empty, or tagged.
  property-IsLines :
      (missing b : Bool) (tag words : Bytes) (fields : List Bytes) (plain : Bytes)
      → IsTagged tag words
      → IsLines (
          if missing
          then vcard_printf (tag ++ Words.colon)
          else if b
          then vcard_qp_print_encoded utf8
              (printed len_max (tag ++ (Words.semicolon ++ words)))
              fields
          else vcard_printf plain)
  property-IsLines missing b tag words fields plain h =
      either-IsLines missing (vcard_printf (tag ++ Words.colon)) _
        (vcard_printf-IsLines (tag ++ Words.colon)) (tagged-IsLines b tag words fields plain h)

module _ (utf8 : Bytes → Option (List ℕ)) (stack : Bytes) where
  pub begin-IsLines : (format : ℕ) → IsLines (vcard_printf_begin format)
  begin-IsLines format =
      IsLines-append (vcard_printf Words.begin_vcard) _ (vcard_printf-IsLines Words.begin_vcard) (
        either-IsLines (format == format_vcard30) (vcard_printf Words.version_30) _
          (vcard_printf-IsLines Words.version_30)
          (either-IsLines (format == format_vcard21) (vcard_printf Words.version_21) []
            (vcard_printf-IsLines Words.version_21) no-IsLines))

  pub name-IsLines :
      (format : ℕ) (c : PhonebookContact) → IsLines (vcard_printf_name utf8 stack format c)
  unfolding vcard_printf_name
  name-IsLines format c =
      let fields = before_null (c.family ∷ c.given ∷ c.additional ∷ c.prefix ∷ c.suffix ∷ []) in
      either-IsLines (not (contact_fields_present c)) (vcard_printf (Words.n_tag ++ Words.colon)) _
        (vcard_printf-IsLines (Words.n_tag ++ Words.colon))
        (encoded-IsLines utf8 (select_qp_encoding format fields) Words.n_tag fields _
          (short Words.n_tag refl))

  pub fullname-IsLines :
      (format : ℕ) (s : Str) → IsLines (vcard_printf_fullname utf8 stack format s)
  unfolding vcard_printf_fullname
  fullname-IsLines format s =
      let t = text_of s in
      either-IsLines (is_empty t) (vcard_printf (Words.fn_tag ++ Words.colon)) _
        (vcard_printf-IsLines (Words.fn_tag ++ Words.colon))
        (encoded-IsLines utf8 (select_qp_encoding format (t ∷ [])) Words.fn_tag (t ∷ []) _
          (short Words.fn_tag refl))

  pub number-IsLines :
      (format : ℕ) (s : Str) (type category : ℕ)
      → IsLines (vcard_printf_number utf8 stack format s type category)
  unfolding vcard_printf_number
  number-IsLines format s type category =
      let n = text_of s in
      let intl = if type == type_international && not (starts_with 43 n) then Words.plus else [] in
      property-IsLines utf8 (is_empty n || type == 0) (select_qp_encoding format (n ∷ []))
        Words.tel_tag (number_words format category) (printed len_max (intl ++ n) ∷ []) _
        (number_words-IsTagged format category)

  pub email-IsLines :
      (format : ℕ) (s : Str) (category : ℕ)
      → IsLines (vcard_printf_email utf8 stack format s category)
  unfolding vcard_printf_email
  email-IsLines format s category =
      let t = text_of s in
      property-IsLines utf8 (is_empty t) (select_qp_encoding format (t ∷ [])) Words.email_tag
        (email_words format category) (t ∷ []) _ (email_words-IsTagged format category)

  pub url-IsLines :
      (format : ℕ) (s : Str) (category : ℕ)
      → IsLines (vcard_printf_url utf8 stack format s category)
  unfolding vcard_printf_url
  url-IsLines format s category =
      let t = text_of s in
      property-IsLines utf8 (is_empty t) (select_qp_encoding format (t ∷ [])) Words.url_tag
        (url_words format category) (t ∷ []) _ (url_words-IsTagged format category)

  pub address-IsLines :
      (format : ℕ) (a : Option PhonebookAddr) → IsLines (vcard_printf_address utf8 stack format a)
  unfolding vcard_printf_address
  address-IsLines format none = vcard_printf-IsLines (Words.adr_tag ++ Words.colon)
  address-IsLines format (some a) =
      let fields = before_null a.fields in
      tagged-IsLines utf8 (select_qp_encoding format fields) Words.adr_tag
        (address_words format a.type) fields _ (address_words-IsTagged format a.type)

  call-IsLines :
      (format : ℕ) (datetime : Bytes) (type : Option Bytes)
      → IsCall type
      → IsLines (printf_call utf8 stack format datetime type)
  unfolding printf_call
  call-IsLines format datetime none h = no-IsLines
  call-IsLines format datetime (some type) h =
      tagged-IsLines utf8 (select_qp_encoding format (datetime ∷ [])) Words.datetime_tag type
        (datetime ∷ []) _ h

  pub datetime-IsLines :
      (format : ℕ) (c : PhonebookContact) → IsLines (vcard_printf_datetime utf8 stack format c)
  datetime-IsLines format c =
      let t = Words.datetime_tag in
      call-IsLines format c.datetime (calltype_words c.calltype) (
        if_holds IsCall (c.calltype == 1) _ _ (tagged t Words.missed_word refl) (
          if_holds IsCall (c.calltype == 2) _ _ (tagged t Words.received_word refl) (
            if_holds IsCall (c.calltype == 3) (some Words.dialed_word) none
              (tagged t Words.dialed_word refl) tt)))

  -- A tag without a category.
  pub tag-IsLines :
      (format : ℕ) (tag : Bytes) (s : Str)
      → IsShort tag
      → IsLines (vcard_printf_tag utf8 stack format (some tag) none s)
  unfolding vcard_printf_tag
  tag-IsLines format tag s h =
      let t = text_of s in
      let bare : tag ++ ([] ++ ([] ++ [])) ≡ tag = append-nil tag in
      either-IsLines (is_empty tag) [] _ no-IsLines (
        either-IsLines (is_empty t) (vcard_printf (tag ++ Words.colon)) _
          (vcard_printf-IsLines (tag ++ Words.colon))
          (encoded-IsLines utf8 (select_qp_encoding format (t ∷ [])) (printed len_max (tag ++ []))
            (t ∷ []) _ (printed-IsShort (tag ++ []) (subst IsShort (sym bare) h))))

  pub org-IsLines :
      (format : ℕ) (c : PhonebookContact) → IsLines (vcard_printf_org utf8 stack format c)
  unfolding vcard_printf_org
  org-IsLines format c =
      let fields = before_null (c.company ∷ c.department ∷ []) in
      either-IsLines (not (org_fields_present c)) [] _ no-IsLines (
        encoded-IsLines utf8 (select_qp_encoding format fields) Words.org_tag fields _
          (short Words.org_tag refl))
