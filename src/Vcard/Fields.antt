-- ===== src/Vcard/Fields.antt =====
-- plugins/vcard.c: the printers of the properties. Each gives the text that it appends.
pub mod Width
pub mod Lines
use map_client.Base.{
  ℕ, zero, suc, ◌*◌, ◌+◌, Bool, true, false, ◌&&◌, ◌||◌, not, Option, some, none, List, [], ◌∷◌,
  ◌++◌, take, ◌==◌, if◌then◌else◌,
}
use map_client.Base.Endian.{Bytes}
use map_client.Vcard.Words
use map_client.Vcard.Print.{vcard_printf, printed, format_vcard21, format_vcard30}
use map_client.Vcard.Escape.{len_max, set_escape, get_escaped_fields}
use map_client.Vcard.Qp.{vcard_qp_print_encoded, select_qp_encoding}

abbrev pub addr_field_amount : ℕ
addr_field_amount = 7

abbrev pub type_international : ℕ
type_international = 145

-- A pointer to a string, which may be null. The code below mostly takes null for empty.
abbrev pub Str : Type 0
Str = Option Bytes

abbrev pub text_of : Str → Bytes
text_of none = []
text_of (some s) = s

abbrev pub is_empty : Bytes → Bool
is_empty [] = true
is_empty (b ∷ bs) = false

-- The arguments of a call that ends its list with NULL: a null argument ends it too.
abbrev pub before_null : List Str → List Bytes
before_null [] = []
before_null (none ∷ ss) = []
before_null (some s ∷ ss) = s ∷ before_null ss

pub record PhonebookField : Type 0 where
  pub text : Str
  pub type : ℕ

-- `fields` has `addr_field_amount` members: the source copies them to an array of that size.
pub record PhonebookAddr : Type 0 where
  pub fields : List Str
  pub type : ℕ

-- The members that are not a `Str` are dereferenced without a test.
pub record PhonebookContact : Type 0 where
  pub uid : Bytes
  pub fullname : Bytes
  pub given : Str
  pub family : Str
  pub additional : Str
  pub numbers : List PhonebookField
  pub emails : List PhonebookField
  pub prefix : Str
  pub suffix : Str
  pub addresses : List PhonebookAddr
  pub birthday : Bytes
  pub nickname : Bytes
  pub urls : List PhonebookField
  pub photo : Bytes
  pub company : Str
  pub department : Str
  pub role : Bytes
  pub title : Bytes
  pub datetime : Bytes
  pub calltype : ℕ

abbrev pub by_format : (format : ℕ) (in_21 in_30 : Bytes) → Bytes
by_format format in_21 in_30 =
    if format == format_vcard21 then in_21 else if format == format_vcard30 then in_30 else []

-- A switch over numbered cases.
abbrev pub switch : List (ℕ × Bytes) → (otherwise : Bytes) → ℕ → Bytes
switch [] otherwise n = otherwise
switch ((label, words) ∷ cases) otherwise n = if n == label then words else switch cases otherwise n

-- The category strings, by the number of the category in its enumeration.
abbrev pub number_cases : (format : ℕ) → List (ℕ × Bytes)
number_cases format =
    (0, by_format format Words.home_voice Words.type_home_voice)
    ∷ (1, by_format format Words.cell_voice Words.type_cell_voice)
    ∷ (2, by_format format Words.fax Words.type_fax)
    ∷ (3, by_format format Words.work_voice Words.type_work_voice)
    ∷ (4, by_format format Words.other_voice Words.type_other_voice)
    ∷ []

-- The cases that email addresses and URLs share.
abbrev pub internet_cases : (format : ℕ) → List (ℕ × Bytes)
internet_cases format =
    (0, by_format format Words.internet_home Words.type_internet_home)
    ∷ (1, by_format format Words.internet_work Words.type_internet_work)
    ∷ []

abbrev pub address_cases : (format : ℕ) → List (ℕ × Bytes)
address_cases format =
    (0, by_format format Words.home Words.type_home)
    ∷ (1, by_format format Words.work Words.type_work)
    ∷ []

abbrev pub number_words : (format category : ℕ) → Bytes
number_words format category = switch (number_cases format) [] category

abbrev pub email_words : (format category : ℕ) → Bytes
email_words format category =
    switch (internet_cases format) (by_format format Words.internet Words.type_internet_other)
      category

abbrev pub url_words : (format category : ℕ) → Bytes
url_words format category =
    switch (internet_cases format) (by_format format Words.internet Words.type_internet) category

abbrev pub address_words : (format category : ℕ) → Bytes
address_words format category =
    switch (address_cases format) (by_format format Words.other_word Words.type_other) category

abbrev pub calltype_words : (calltype : ℕ) → Option Bytes
calltype_words calltype =
    if calltype == 1
    then some Words.missed_word
    else if calltype == 2
    then some Words.received_word
    else if calltype == 3
    then some Words.dialed_word
    else none

abbrev pub starts_with : ℕ → Bytes → Bool
starts_with c [] = false
starts_with c (b ∷ bs) = b == c

abbrev pub vcard_printf_begin : (format : ℕ) → Bytes
vcard_printf_begin format =
    vcard_printf Words.begin_vcard
    ++ (if format == format_vcard30
        then vcard_printf Words.version_30
        else if format == format_vcard21
        then vcard_printf Words.version_21
        else [])

abbrev pub vcard_printf_end : Bytes
vcard_printf_end = vcard_printf Words.end_vcard

abbrev pub contact_fields_present : PhonebookContact → Bool
contact_fields_present contact =
    not (is_empty (text_of contact.family))
    || (not (is_empty (text_of contact.given))
        || (not (is_empty (text_of contact.additional))
            || (not (is_empty (text_of contact.prefix))
                || not (is_empty (text_of contact.suffix)))))

abbrev pub org_fields_present : PhonebookContact → Bool
org_fields_present contact =
    not (is_empty (text_of contact.company)) || not (is_empty (text_of contact.department))

-- The fields of an address, in a buffer of `size` bytes that g_strlcat fills.
abbrev pub strlcat : (size : ℕ) (dest src : Bytes) → Bytes
strlcat size dest src = printed size (dest ++ src)

-- The characters of a text in UTF-8, and what an array on the stack holds, are parameters.
module _ (utf8 : Bytes → Option (List ℕ)) (stack : Bytes) where
  unfoldable pub address_text : (format size : ℕ) (field_esc fields : Bytes) → List Str → Bytes
  address_text format size field_esc fields [] = fields
  address_text format size field_esc fields (field ∷ rest) =
      let esc : Bytes = elim field [
        | none ↦ field_esc
        | some f ↦ set_escape format field_esc f len_max
      ] in
      let with_field : Bytes = elim field [ none ↦ fields | some f ↦ strlcat size fields esc ] in
      address_text format size esc
        (elim rest [ [] ↦ with_field | _ ∷ _ ↦ strlcat size with_field Words.semicolon ]) rest

  unfoldable pub vcard_printf_name : (format : ℕ) → PhonebookContact → Bytes
  vcard_printf_name format contact =
      let fields = before_null (
        contact.family ∷ contact.given ∷ contact.additional ∷ contact.prefix ∷ contact.suffix
        ∷ []) in
      if not (contact_fields_present contact)
      then vcard_printf (Words.n_tag ++ Words.colon)
      else if select_qp_encoding format fields
      then vcard_qp_print_encoded utf8 Words.n_tag fields
      else vcard_printf (Words.n_tag ++ (Words.colon ++ get_escaped_fields format stack fields))

  unfoldable pub vcard_printf_fullname : (format : ℕ) → Str → Bytes
  vcard_printf_fullname format text =
      let t = text_of text in
      if is_empty t
      then vcard_printf (Words.fn_tag ++ Words.colon)
      else if select_qp_encoding format (t ∷ [])
      then vcard_qp_print_encoded utf8 Words.fn_tag (t ∷ [])
      else vcard_printf (Words.fn_tag ++ (Words.colon ++ set_escape format stack t len_max))

  unfoldable pub vcard_printf_number : (format : ℕ) (number : Str) (type category : ℕ) → Bytes
  vcard_printf_number format number type category =
      let n = text_of number in
      let intl = if type == type_international && not (starts_with 43 n) then Words.plus else [] in
      let field = printed len_max (intl ++ n) in
      let desc = Words.tel_tag ++ (Words.semicolon ++ number_words format category) in
      if is_empty n || type == 0
      then vcard_printf (Words.tel_tag ++ Words.colon)
      else if select_qp_encoding format (n ∷ [])
      then vcard_qp_print_encoded utf8 (printed len_max desc) (field ∷ [])
      else vcard_printf (desc ++ (Words.colon ++ field))

  unfoldable pub vcard_printf_tag : (format : ℕ) (tag category fld : Str) → Bytes
  vcard_printf_tag format tag category fld =
      let t = text_of tag in
      let c = text_of category in
      let f = text_of fld in
      let separator = if is_empty c then [] else Words.semicolon in
      let type = if not (is_empty c) && format == format_vcard30 then Words.type_is else [] in
      let buf = printed len_max (t ++ (separator ++ (type ++ c))) in
      if is_empty t
      then []
      else if is_empty f
      then vcard_printf (t ++ Words.colon)
      else if select_qp_encoding format (f ∷ [])
      then vcard_qp_print_encoded utf8 buf (f ∷ [])
      else vcard_printf (buf ++ (Words.colon ++ set_escape format stack f len_max))

  -- What the printers of email addresses and of URLs share.
  abbrev pub printf_worded : (format : ℕ) (tag words : Bytes) (text : Str) → Bytes
  printf_worded format tag words text =
      let t = text_of text in
      let desc = tag ++ (Words.semicolon ++ words) in
      if is_empty t
      then vcard_printf (tag ++ Words.colon)
      else if select_qp_encoding format (t ∷ [])
      then vcard_qp_print_encoded utf8 (printed len_max desc) (t ∷ [])
      else vcard_printf (desc ++ (Words.colon ++ set_escape format stack t len_max))

  unfoldable pub vcard_printf_email : (format : ℕ) (address : Str) (category : ℕ) → Bytes
  vcard_printf_email format address category =
      printf_worded format Words.email_tag (email_words format category) address

  unfoldable pub vcard_printf_url : (format : ℕ) (url : Str) (category : ℕ) → Bytes
  vcard_printf_url format url category =
      printf_worded format Words.url_tag (url_words format category) url

  unfoldable pub vcard_printf_org : (format : ℕ) → PhonebookContact → Bytes
  vcard_printf_org format contact =
      let fields = before_null (contact.company ∷ contact.department ∷ []) in
      if not (org_fields_present contact)
      then []
      else if select_qp_encoding format fields
      then vcard_qp_print_encoded utf8 Words.org_tag fields
      else vcard_printf (Words.org_tag ++ (Words.colon ++ get_escaped_fields format stack fields))

  unfoldable pub vcard_printf_address : (format : ℕ) → Option PhonebookAddr → Bytes
  vcard_printf_address format none = vcard_printf (Words.adr_tag ++ Words.colon)
  vcard_printf_address format (some address) =
      let fields = before_null address.fields in
      let desc = Words.adr_tag ++ (Words.semicolon ++ address_words format address.type) in
      if select_qp_encoding format fields
      then vcard_qp_print_encoded utf8 (printed len_max desc) fields
      else vcard_printf (
          desc
          ++ (Words.colon
              ++ address_text format (addr_field_amount * len_max) stack [] address.fields))

  -- The line of a call, or none at all for a contact that is none.
  unfoldable pub printf_call : (format : ℕ) (datetime : Bytes) → Option Bytes → Bytes
  printf_call format datetime none = []
  printf_call format datetime (some type) =
      let desc = Words.datetime_tag ++ (Words.semicolon ++ type) in
      if select_qp_encoding format (datetime ∷ [])
      then vcard_qp_print_encoded utf8 (printed len_max desc) (datetime ∷ [])
      else vcard_printf (desc ++ (Words.colon ++ datetime))

  abbrev pub vcard_printf_datetime : (format : ℕ) → PhonebookContact → Bytes
  vcard_printf_datetime format contact =
      printf_call format contact.datetime (calltype_words contact.calltype)
