-- ===== src/Vcard/Tests.antt =====
-- plugins/vcard.c: small texts, and the theorems at them.
use map_client.Base.{ℕ, ◌≡◌, inl, refl, false, Option, some, none, List, [], ◌∷◌, ◌++◌, arith}
use map_client.Base.Endian.{Bytes}
use map_client.Vcard.Words
use map_client.Vcard.Print.{vcard_printf, fold_lines, format_vcard30}
use map_client.Vcard.Print.Width.{IsLines}
use map_client.Vcard.Escape.{get_escaped_fields, escape_from}
use map_client.Vcard.Escape.Split.{split_fields, split_fields-get_escaped_fields}
use map_client.Vcard.Qp.{
  vcard_qp_print_encoded, qp_header, charset, append_qp_fields, append_qp_field, append_qp_char,
  append_qp_hex, append_qp_ascii, append_qp_break_line, set_qp_encoding, utf8_select,
}
use map_client.Vcard.Qp.Width.{param}
use map_client.Vcard.Qp.Decode.{feed_all, got, put_quoted_fields, vcard_qp_print_encoded-feed_all}
use map_client.Vcard.Fields.{PhonebookContact}
use map_client.Vcard.Contact.{phonebook_add_contact}
use map_client.Vcard.Contact.Width.{phonebook_add_contact-IsLines}

-- A reader of UTF-8 that takes each byte for a character.
abbrev bytes_only : Bytes → Option (List ℕ)
bytes_only s = some s

-- "a;b", a line feed, and "c".
abbrev sample : Bytes
sample = 97 ∷ 59 ∷ 98 ∷ 10 ∷ 99 ∷ []

abbrev other_sample : Bytes
other_sample = 44 ∷ 195 ∷ []

abbrev contact : PhonebookContact
contact = record {
  uid = [];
  fullname = sample;
  given = some other_sample;
  family = none;
  additional = none;
  numbers = record { text = some (49 ∷ 50 ∷ []); type = 0 } ∷ [];
  emails = [];
  prefix = none;
  suffix = none;
  addresses = [];
  birthday = [];
  nickname = [];
  urls = [];
  photo = [];
  company = none;
  department = none;
  role = [];
  title = [];
  datetime = [];
  calltype = 0;
}

vcard_printf_test : vcard_printf sample ≡ sample ++ (13 ∷ 10 ∷ [])
unfolding vcard_printf fold_lines
vcard_printf_test = refl

split_fields-get_escaped_fields_example :
    split_fields false (get_escaped_fields format_vcard30 [] (sample ∷ other_sample ∷ []))
    ≡ (sample, other_sample ∷ [])
split_fields-get_escaped_fields_example =
    split_fields-get_escaped_fields format_vcard30 [] sample (other_sample ∷ [])
      ((omega arith, inl refl), ((omega arith, inl refl), tt))

get_escaped_fields_test :
    get_escaped_fields format_vcard30 [] (sample ∷ other_sample ∷ [])
    ≡ 97 ∷ 92 ∷ 59 ∷ 98 ∷ 92 ∷ 110 ∷ 99 ∷ 59 ∷ 92 ∷ 44 ∷ 195 ∷ []
unfolding get_escaped_fields escape_from
get_escaped_fields_test = refl

vcard_qp_print_encoded-feed_all_example :
    (body : Bytes) × (vcard_qp_print_encoded bytes_only Words.n_tag (sample ∷ other_sample ∷ [])
      ≡ param bytes_only Words.n_tag (sample ∷ other_sample ∷ []) ++ body ++ Words.crlf)
    × (feed_all (got []) body ≡ got (put_quoted_fields [] (sample ∷ other_sample ∷ [])))
vcard_qp_print_encoded-feed_all_example =
    vcard_qp_print_encoded-feed_all bytes_only Words.n_tag (sample ∷ other_sample ∷ [])
      (unfold charset utf8_select in omega arith)
      (
        (omega arith, (omega arith, (omega arith, (omega arith, (omega arith, tt))))),
        ((omega arith, (omega arith, tt)), tt),
      )

vcard_qp_print_encoded_test :
    vcard_qp_print_encoded bytes_only Words.n_tag ((97 ∷ 10 ∷ []) ∷ [])
    ≡ Words.n_tag
      ++ Words.encoding_qp
      ++ Words.colon
      ++ (97 ∷ 61 ∷ 48 ∷ 68 ∷ 61 ∷ 48 ∷ 65 ∷ 61 ∷ 13 ∷ 10 ∷ 32 ∷ 13 ∷ 10 ∷ [])
unfolding vcard_qp_print_encoded qp_header charset append_qp_fields append_qp_field append_qp_char
    append_qp_hex append_qp_ascii append_qp_break_line set_qp_encoding utf8_select vcard_printf
    fold_lines
vcard_qp_print_encoded_test = refl

phonebook_add_contact-IsLines_example :
    IsLines (phonebook_add_contact bytes_only [] contact 0 format_vcard30)
phonebook_add_contact-IsLines_example =
    phonebook_add_contact-IsLines bytes_only [] contact 0 format_vcard30
