-- ===== src/Vcard/Words.antt =====
-- plugins/vcard.c: its string literals, as the bytes that they stand for.
use map_client.Base.{[], ◌∷◌}
use map_client.Base.Endian.{Bytes}

-- \r\n
abbrev pub crlf : Bytes
crlf = 13 ∷ 10 ∷ []

-- \r\n
abbrev pub fold_break : Bytes
fold_break = 13 ∷ 10 ∷ 32 ∷ []

-- =
abbrev pub soft_break : Bytes
soft_break = 61 ∷ []

-- ;ENCODING=QUOTED-PRINTABLE
abbrev pub encoding_qp : Bytes
encoding_qp =
    59 ∷ 69 ∷ 78 ∷ 67 ∷ 79 ∷ 68 ∷ 73 ∷ 78 ∷ 71 ∷ 61 ∷ 81 ∷ 85 ∷ 79 ∷ 84 ∷ 69 ∷ 68 ∷ 45 ∷ 80 ∷ 82
    ∷ 73 ∷ 78 ∷ 84 ∷ 65 ∷ 66 ∷ 76 ∷ 69 ∷ []

-- ;CHARSET=UTF-8
abbrev pub charset_utf8 : Bytes
charset_utf8 = 59 ∷ 67 ∷ 72 ∷ 65 ∷ 82 ∷ 83 ∷ 69 ∷ 84 ∷ 61 ∷ 85 ∷ 84 ∷ 70 ∷ 45 ∷ 56 ∷ []

-- :
abbrev pub colon : Bytes
colon = 58 ∷ []

-- ;
abbrev pub semicolon : Bytes
semicolon = 59 ∷ []

-- +
abbrev pub plus : Bytes
plus = 43 ∷ []

-- \n!"#$=@[\\]^`{|}~
abbrev pub qp_select : Bytes
qp_select = 10 ∷ 33 ∷ 34 ∷ 35 ∷ 36 ∷ 61 ∷ 64 ∷ 91 ∷ 92 ∷ 93 ∷ 94 ∷ 96 ∷ 123 ∷ 124 ∷ 125 ∷ 126 ∷ []

-- BEGIN:VCARD
abbrev pub begin_vcard : Bytes
begin_vcard = 66 ∷ 69 ∷ 71 ∷ 73 ∷ 78 ∷ 58 ∷ 86 ∷ 67 ∷ 65 ∷ 82 ∷ 68 ∷ []

-- VERSION:3.0
abbrev pub version_30 : Bytes
version_30 = 86 ∷ 69 ∷ 82 ∷ 83 ∷ 73 ∷ 79 ∷ 78 ∷ 58 ∷ 51 ∷ 46 ∷ 48 ∷ []

-- VERSION:2.1
abbrev pub version_21 : Bytes
version_21 = 86 ∷ 69 ∷ 82 ∷ 83 ∷ 73 ∷ 79 ∷ 78 ∷ 58 ∷ 50 ∷ 46 ∷ 49 ∷ []

-- END:VCARD
abbrev pub end_vcard : Bytes
end_vcard = 69 ∷ 78 ∷ 68 ∷ 58 ∷ 86 ∷ 67 ∷ 65 ∷ 82 ∷ 68 ∷ []

-- N
abbrev pub n_tag : Bytes
n_tag = 78 ∷ []

-- FN
abbrev pub fn_tag : Bytes
fn_tag = 70 ∷ 78 ∷ []

-- TEL
abbrev pub tel_tag : Bytes
tel_tag = 84 ∷ 69 ∷ 76 ∷ []

-- EMAIL
abbrev pub email_tag : Bytes
email_tag = 69 ∷ 77 ∷ 65 ∷ 73 ∷ 76 ∷ []

-- URL
abbrev pub url_tag : Bytes
url_tag = 85 ∷ 82 ∷ 76 ∷ []

-- ORG
abbrev pub org_tag : Bytes
org_tag = 79 ∷ 82 ∷ 71 ∷ []

-- ADR
abbrev pub adr_tag : Bytes
adr_tag = 65 ∷ 68 ∷ 82 ∷ []

-- UID
abbrev pub uid_tag : Bytes
uid_tag = 85 ∷ 73 ∷ 68 ∷ []

-- BDAY
abbrev pub bday_tag : Bytes
bday_tag = 66 ∷ 68 ∷ 65 ∷ 89 ∷ []

-- NICKNAME
abbrev pub nickname_tag : Bytes
nickname_tag = 78 ∷ 73 ∷ 67 ∷ 75 ∷ 78 ∷ 65 ∷ 77 ∷ 69 ∷ []

-- PHOTO
abbrev pub photo_tag : Bytes
photo_tag = 80 ∷ 72 ∷ 79 ∷ 84 ∷ 79 ∷ []

-- ROLE
abbrev pub role_tag : Bytes
role_tag = 82 ∷ 79 ∷ 76 ∷ 69 ∷ []

-- TITLE
abbrev pub title_tag : Bytes
title_tag = 84 ∷ 73 ∷ 84 ∷ 76 ∷ 69 ∷ []

-- X-IRMC-CALL-DATETIME
abbrev pub datetime_tag : Bytes
datetime_tag =
    88 ∷ 45 ∷ 73 ∷ 82 ∷ 77 ∷ 67 ∷ 45 ∷ 67 ∷ 65 ∷ 76 ∷ 76 ∷ 45 ∷ 68 ∷ 65 ∷ 84 ∷ 69 ∷ 84 ∷ 73 ∷ 77
    ∷ 69 ∷ []

-- TYPE=
abbrev pub type_is : Bytes
type_is = 84 ∷ 89 ∷ 80 ∷ 69 ∷ 61 ∷ []

-- HOME;VOICE
abbrev pub home_voice : Bytes
home_voice = 72 ∷ 79 ∷ 77 ∷ 69 ∷ 59 ∷ 86 ∷ 79 ∷ 73 ∷ 67 ∷ 69 ∷ []

-- TYPE=HOME;TYPE=VOICE
abbrev pub type_home_voice : Bytes
type_home_voice =
    84 ∷ 89 ∷ 80 ∷ 69 ∷ 61 ∷ 72 ∷ 79 ∷ 77 ∷ 69 ∷ 59 ∷ 84 ∷ 89 ∷ 80 ∷ 69 ∷ 61 ∷ 86 ∷ 79 ∷ 73 ∷ 67
    ∷ 69 ∷ []

-- CELL;VOICE
abbrev pub cell_voice : Bytes
cell_voice = 67 ∷ 69 ∷ 76 ∷ 76 ∷ 59 ∷ 86 ∷ 79 ∷ 73 ∷ 67 ∷ 69 ∷ []

-- TYPE=CELL;TYPE=VOICE
abbrev pub type_cell_voice : Bytes
type_cell_voice =
    84 ∷ 89 ∷ 80 ∷ 69 ∷ 61 ∷ 67 ∷ 69 ∷ 76 ∷ 76 ∷ 59 ∷ 84 ∷ 89 ∷ 80 ∷ 69 ∷ 61 ∷ 86 ∷ 79 ∷ 73 ∷ 67
    ∷ 69 ∷ []

-- FAX
abbrev pub fax : Bytes
fax = 70 ∷ 65 ∷ 88 ∷ []

-- TYPE=FAX
abbrev pub type_fax : Bytes
type_fax = 84 ∷ 89 ∷ 80 ∷ 69 ∷ 61 ∷ 70 ∷ 65 ∷ 88 ∷ []

-- WORK;VOICE
abbrev pub work_voice : Bytes
work_voice = 87 ∷ 79 ∷ 82 ∷ 75 ∷ 59 ∷ 86 ∷ 79 ∷ 73 ∷ 67 ∷ 69 ∷ []

-- TYPE=WORK;TYPE=VOICE
abbrev pub type_work_voice : Bytes
type_work_voice =
    84 ∷ 89 ∷ 80 ∷ 69 ∷ 61 ∷ 87 ∷ 79 ∷ 82 ∷ 75 ∷ 59 ∷ 84 ∷ 89 ∷ 80 ∷ 69 ∷ 61 ∷ 86 ∷ 79 ∷ 73 ∷ 67
    ∷ 69 ∷ []

-- OTHER;VOICE
abbrev pub other_voice : Bytes
other_voice = 79 ∷ 84 ∷ 72 ∷ 69 ∷ 82 ∷ 59 ∷ 86 ∷ 79 ∷ 73 ∷ 67 ∷ 69 ∷ []

-- TYPE=OTHER;TYPE=VOICE
abbrev pub type_other_voice : Bytes
type_other_voice =
    84 ∷ 89 ∷ 80 ∷ 69 ∷ 61 ∷ 79 ∷ 84 ∷ 72 ∷ 69 ∷ 82 ∷ 59 ∷ 84 ∷ 89 ∷ 80 ∷ 69 ∷ 61 ∷ 86 ∷ 79 ∷ 73
    ∷ 67 ∷ 69 ∷ []

-- INTERNET;HOME
abbrev pub internet_home : Bytes
internet_home = 73 ∷ 78 ∷ 84 ∷ 69 ∷ 82 ∷ 78 ∷ 69 ∷ 84 ∷ 59 ∷ 72 ∷ 79 ∷ 77 ∷ 69 ∷ []

-- TYPE=INTERNET;TYPE=HOME
abbrev pub type_internet_home : Bytes
type_internet_home =
    84 ∷ 89 ∷ 80 ∷ 69 ∷ 61 ∷ 73 ∷ 78 ∷ 84 ∷ 69 ∷ 82 ∷ 78 ∷ 69 ∷ 84 ∷ 59 ∷ 84 ∷ 89 ∷ 80 ∷ 69 ∷ 61
    ∷ 72 ∷ 79 ∷ 77 ∷ 69 ∷ []

-- INTERNET;WORK
abbrev pub internet_work : Bytes
internet_work = 73 ∷ 78 ∷ 84 ∷ 69 ∷ 82 ∷ 78 ∷ 69 ∷ 84 ∷ 59 ∷ 87 ∷ 79 ∷ 82 ∷ 75 ∷ []

-- TYPE=INTERNET;TYPE=WORK
abbrev pub type_internet_work : Bytes
type_internet_work =
    84 ∷ 89 ∷ 80 ∷ 69 ∷ 61 ∷ 73 ∷ 78 ∷ 84 ∷ 69 ∷ 82 ∷ 78 ∷ 69 ∷ 84 ∷ 59 ∷ 84 ∷ 89 ∷ 80 ∷ 69 ∷ 61
    ∷ 87 ∷ 79 ∷ 82 ∷ 75 ∷ []

-- INTERNET
abbrev pub internet : Bytes
internet = 73 ∷ 78 ∷ 84 ∷ 69 ∷ 82 ∷ 78 ∷ 69 ∷ 84 ∷ []

-- TYPE=INTERNET;TYPE=OTHER
abbrev pub type_internet_other : Bytes
type_internet_other =
    84 ∷ 89 ∷ 80 ∷ 69 ∷ 61 ∷ 73 ∷ 78 ∷ 84 ∷ 69 ∷ 82 ∷ 78 ∷ 69 ∷ 84 ∷ 59 ∷ 84 ∷ 89 ∷ 80 ∷ 69 ∷ 61
    ∷ 79 ∷ 84 ∷ 72 ∷ 69 ∷ 82 ∷ []

-- TYPE=INTERNET
abbrev pub type_internet : Bytes
type_internet = 84 ∷ 89 ∷ 80 ∷ 69 ∷ 61 ∷ 73 ∷ 78 ∷ 84 ∷ 69 ∷ 82 ∷ 78 ∷ 69 ∷ 84 ∷ []

-- HOME
abbrev pub home : Bytes
home = 72 ∷ 79 ∷ 77 ∷ 69 ∷ []

-- TYPE=HOME
abbrev pub type_home : Bytes
type_home = 84 ∷ 89 ∷ 80 ∷ 69 ∷ 61 ∷ 72 ∷ 79 ∷ 77 ∷ 69 ∷ []

-- WORK
abbrev pub work : Bytes
work = 87 ∷ 79 ∷ 82 ∷ 75 ∷ []

-- TYPE=WORK
abbrev pub type_work : Bytes
type_work = 84 ∷ 89 ∷ 80 ∷ 69 ∷ 61 ∷ 87 ∷ 79 ∷ 82 ∷ 75 ∷ []

-- OTHER
abbrev pub other_word : Bytes
other_word = 79 ∷ 84 ∷ 72 ∷ 69 ∷ 82 ∷ []

-- TYPE=OTHER
abbrev pub type_other : Bytes
type_other = 84 ∷ 89 ∷ 80 ∷ 69 ∷ 61 ∷ 79 ∷ 84 ∷ 72 ∷ 69 ∷ 82 ∷ []

-- MISSED
abbrev pub missed_word : Bytes
missed_word = 77 ∷ 73 ∷ 83 ∷ 83 ∷ 69 ∷ 68 ∷ []

-- RECEIVED
abbrev pub received_word : Bytes
received_word = 82 ∷ 69 ∷ 67 ∷ 69 ∷ 73 ∷ 86 ∷ 69 ∷ 68 ∷ []

-- DIALED
abbrev pub dialed_word : Bytes
dialed_word = 68 ∷ 73 ∷ 65 ∷ 76 ∷ 69 ∷ 68 ∷ []
