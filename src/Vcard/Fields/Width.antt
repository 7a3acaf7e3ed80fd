-- ===== src/Vcard/Fields/Width.antt =====
-- plugins/vcard.c: how wide the lines of the properties are.
use map_client.Base.{
  ℕ, ◌≤◌, ◌≡◌, ◌≢◌, refl, Bool, true, false, ◌&&◌, List, [], ◌∷◌, ◌++◌, All, All-take, length,
  length-take, leb, ◌==◌, if◌then◌else◌, arith,
}
use map_client.Base.Endian.{Bytes}
use map_client.Vcard.Words
use map_client.Vcard.Print.{printed, format_vcard21, format_vcard30}
use map_client.Vcard.Print.Width.{IsLines, IsNarrow, column, is_inline, inline}
use map_client.Vcard.Escape.{len_max}
use map_client.Vcard.Fields.{
  by_format, switch, number_cases, internet_cases, address_cases, number_words, email_words,
  url_words, address_words,
}

pub if_holds {ℓ} :
    {A : Type 0} (P : A → Type ℓ) (b : Bool) (x y : A) → P x → P y → P (if b then x else y)
if_holds P true x y h k = h
if_holds P false x y h k = k

pub no-IsLines : IsLines []
unfolding IsNarrow column
no-IsLines = (tt, refl)

-- A name of a property that leaves room for the encoding and the character set.
abbrev pub IsShort : Bytes → Type 0
IsShort desc = (length desc ≤ 33) × All (λ b. b ≢ 10) desc

pub short : (s : Bytes) → (leb (length s) 33 && is_inline s) ≡ true → IsShort s
short s h = (ground arith, inline s (ground arith))

pub printed-IsShort : (s : Bytes) → IsShort s → IsShort (printed len_max s)
printed-IsShort s (h, clean) =
    (omega (arith, length-take 127 s), All-take (λ b. b ≢ 10) 127 s clean)

-- The words of a property are short after its tag.
pub record IsTagged (tag words : Bytes) : Type 0 where
  pub fits : IsShort (tag ++ (Words.semicolon ++ words))

by_format-IsTagged :
    (tag : Bytes) (format : ℕ) (a b : Bytes)
    → IsTagged tag a
    → IsTagged tag b
    → IsTagged tag []
    → IsTagged tag (by_format format a b)
by_format-IsTagged tag format a b ha hb hn =
    if_holds (IsTagged tag) (format == format_vcard21) a
      (if format == format_vcard30 then b else []) ha
      (if_holds (IsTagged tag) (format == format_vcard30) b [] hb hn)

abbrev pub is_tagged : Bytes → Bytes → Bool
is_tagged tag words =
    leb (length (tag ++ (Words.semicolon ++ words))) 33
    && is_inline (tag ++ (Words.semicolon ++ words))

pub tagged : (tag words : Bytes) → is_tagged tag words ≡ true → IsTagged tag words
tagged tag words h = record { fits = short (tag ++ (Words.semicolon ++ words)) h }

either-IsTagged :
    (tag : Bytes) (b : Bool) (x y : Bytes)
    → IsTagged tag x
    → IsTagged tag y
    → IsTagged tag (if b then x else y)
either-IsTagged tag = if_holds (IsTagged tag)

format-IsTagged :
    (tag : Bytes) (format : ℕ) (a b : Bytes)
    → (is_tagged tag a && (is_tagged tag b && is_tagged tag [])) ≡ true
    → IsTagged tag (by_format format a b)
format-IsTagged tag format a b h =
    either-IsTagged tag (format == format_vcard21) a (if format == format_vcard30 then b else [])
      (tagged tag a (ground arith))
      (either-IsTagged tag (format == format_vcard30) b [] (tagged tag b (ground arith))
        (tagged tag [] (ground arith)))

switch-IsTagged :
    (tag : Bytes) (cases : List (ℕ × Bytes)) (otherwise : Bytes) (n : ℕ)
    → All (λ c. IsTagged tag c.1) cases
    → IsTagged tag otherwise
    → IsTagged tag (switch cases otherwise n)
switch-IsTagged tag [] otherwise n h k = k
switch-IsTagged tag ((label, words) ∷ cases) otherwise n (here, h) k =
    either-IsTagged tag (n == label) words (switch cases otherwise n) here
      (switch-IsTagged tag cases otherwise n h k)

pub number_words-IsTagged :
    (format category : ℕ) → IsTagged Words.tel_tag (number_words format category)
number_words-IsTagged format category =
    let t = Words.tel_tag in
    let home = format-IsTagged t format Words.home_voice Words.type_home_voice refl in
    let cell = format-IsTagged t format Words.cell_voice Words.type_cell_voice refl in
    let fax = format-IsTagged t format Words.fax Words.type_fax refl in
    let work = format-IsTagged t format Words.work_voice Words.type_work_voice refl in
    let other = format-IsTagged t format Words.other_voice Words.type_other_voice refl in
    switch-IsTagged t (number_cases format) [] category (home, (cell, (fax, (work, (other, tt)))))
      (tagged t [] refl)

internet-IsTagged :
    (tag : Bytes) (format : ℕ) (others : Bytes) (category : ℕ)
    → (is_tagged tag Words.internet_home
        && (is_tagged tag Words.type_internet_home
            && (is_tagged tag Words.internet_work
                && (is_tagged tag Words.type_internet_work && is_tagged tag []))))
      ≡ true
    → IsTagged tag others
    → IsTagged tag (switch (internet_cases format) others category)
internet-IsTagged tag format others category h k =
    switch-IsTagged tag (internet_cases format) others category
      (
        format-IsTagged tag format Words.internet_home Words.type_internet_home (ground arith),
        (
          format-IsTagged tag format Words.internet_work Words.type_internet_work (ground arith),
          tt,
        ),
      )
      k

pub email_words-IsTagged :
    (format category : ℕ) → IsTagged Words.email_tag (email_words format category)
email_words-IsTagged format category =
    let t = Words.email_tag in
    internet-IsTagged t format (by_format format Words.internet Words.type_internet_other) category
      refl (format-IsTagged t format Words.internet Words.type_internet_other refl)

pub url_words-IsTagged : (format category : ℕ) → IsTagged Words.url_tag (url_words format category)
url_words-IsTagged format category =
    let t = Words.url_tag in
    internet-IsTagged t format (by_format format Words.internet Words.type_internet) category refl
      (format-IsTagged t format Words.internet Words.type_internet refl)

pub address_words-IsTagged :
    (format category : ℕ) → IsTagged Words.adr_tag (address_words format category)
address_words-IsTagged format category =
    let t = Words.adr_tag in
    let home = format-IsTagged t format Words.home Words.type_home refl in
    let work = format-IsTagged t format Words.work Words.type_work refl in
    switch-IsTagged t (address_cases format) (by_format format Words.other_word Words.type_other)
      category (home, (work, tt)) (format-IsTagged t format Words.other_word Words.type_other refl)
