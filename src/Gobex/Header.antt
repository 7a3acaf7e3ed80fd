-- ===== src/Gobex/Header.antt =====
-- gobex/gobex-header.c: the header object, its constructors and its accessors.
pub mod Codec
pub mod WellFormed
pub mod Wire
pub mod Written
pub mod RoundTrip
pub mod Build
mod Tests
use map_client.Base.{
  ℕ, ◌+◌, ◌*◌, ◌%◌, ◌^◌, Bool, true, false, Option, some, none, List, [], ◌∷◌, ◌++◌, bit_and,
  length, ◌==◌, if◌then◌else◌,
}
use map_client.Base.Endian.{Bytes}
use map_client.Gobex.Defs.{Glib}

-- The union `v`. A reference to an external buffer is the bytes that it points to.
pub data Value : Type 0 where
  string : Bytes → Value
  data_copy : Bytes → Value
  extdata_ref : Bytes → Value
  u8 : ℕ → Value
  u32 : ℕ → Value

pub record GObexHeader : Type 0 where
  pub id : ℕ
  pub extdata : Bool
  pub vlen : ℕ
  pub hlen : ℕ
  pub v : Value

-- G_OBEX_HDR_ENC.
unfoldable pub hdr_enc : ℕ → ℕ
hdr_enc id = bit_and id 0xc0

abbrev pub enc_unicode : ℕ
enc_unicode = 0

abbrev pub enc_bytes : ℕ
enc_bytes = 0x40

abbrev pub enc_uint8 : ℕ
enc_uint8 = 0x80

abbrev pub enc_uint32 : ℕ
enc_uint32 = 0xc0

-- What a `char *` shows of a buffer: the bytes up to the first zero.
unfoldable pub c_string : Bytes → Bytes
c_string [] = []
c_string (b ∷ bs) = let rest = c_string bs in if b == 0 then [] else b ∷ rest

-- The members of the union, as the code reads them under its switch; g_new0 left zeroes elsewhere.
abbrev pub string_of : Value → Bytes
string_of (string s) = s
string_of _ = []

abbrev pub bytes_of : Value → Bytes
bytes_of (data_copy b) = b
bytes_of (extdata_ref b) = b
bytes_of _ = []

abbrev pub u8_of : Value → ℕ
u8_of (u8 n) = n
u8_of _ = 0

abbrev pub u32_of : Value → ℕ
u32_of (u32 n) = n
u32_of _ = 0

unfoldable pub get_unicode : GObexHeader → Option Bytes
get_unicode h = if hdr_enc h.id == enc_unicode then some (c_string (string_of h.v)) else none

unfoldable pub get_bytes : GObexHeader → Option (Bytes × ℕ)
get_bytes h = if hdr_enc h.id == enc_bytes then some (bytes_of h.v, h.vlen) else none

unfoldable pub get_uint8 : GObexHeader → Option ℕ
get_uint8 h = if hdr_enc h.id == enc_uint8 then some (u8_of h.v) else none

unfoldable pub get_uint32 : GObexHeader → Option ℕ
get_uint32 h = if hdr_enc h.id == enc_uint32 then some (u32_of h.v) else none

unfoldable pub new_unicode : Glib → ℕ → Bytes → Option GObexHeader
new_unicode g id str =
    let len = g.utf8_strlen (c_string str) in
    if hdr_enc id == enc_unicode
    then some (record {
      id = id;
      extdata = false;
      vlen = len;
      hlen = (if len == 0 then 3 else 3 + (len + 1) * 2);
      v = string (c_string str);
    })
    else none

unfoldable pub new_bytes : ℕ → Bytes → Option GObexHeader
new_bytes id bs =
    if hdr_enc id == enc_bytes
    then some (record {
      id = id;
      extdata = false;
      vlen = length bs;
      hlen = length bs + 3;
      v = data_copy bs;
    })
    else none

unfoldable pub new_uint8 : ℕ → ℕ → Option GObexHeader
new_uint8 id val =
    if hdr_enc id == enc_uint8
    then some (record { id = id; extdata = false; vlen = 1; hlen = 2; v = u8 val })
    else none

unfoldable pub new_uint32 : ℕ → ℕ → Option GObexHeader
new_uint32 id val =
    if hdr_enc id == enc_uint32
    then some (record { id = id; extdata = false; vlen = 4; hlen = 5; v = u32 val })
    else none

abbrev pub get_id : GObexHeader → ℕ
get_id h = h.id

-- The result type is guint16.
unfoldable pub get_length : GObexHeader → ℕ
get_length h = h.hlen % 2 ^ 16

-- The variable arguments that follow a header id, by their C type.
pub data VaArg : Type 0 where
  str : Bytes → VaArg
  buffer : Bytes → VaArg
  val : ℕ → VaArg

-- va_arg at a type; another type than the caller passed is undefined in C, and empty here.
abbrev pub va_str : VaArg → Bytes
va_str (str s) = s
va_str _ = []

abbrev pub va_buffer : VaArg → Bytes
va_buffer (buffer b) = b
va_buffer _ = []

abbrev pub va_val : VaArg → ℕ
va_val (val n) = n
va_val _ = 0

-- One round of the switch in g_obex_header_create_list; a guint8 parameter keeps the low byte.
unfoldable pub create_one : Glib → ℕ → VaArg → Option GObexHeader
create_one g id a =
    if hdr_enc id == enc_unicode
    then new_unicode g (id % 256) (va_str a)
    else if hdr_enc id == enc_bytes
    then new_bytes (id % 256) (va_buffer a)
    else if hdr_enc id == enc_uint8
    then new_uint8 (id % 256) (va_val a % 256)
    else if hdr_enc id == enc_uint32
    then new_uint32 (id % 256) (va_val a % 2 ^ 32)
    else none

-- The loop ends at G_OBEX_HDR_INVALID or where the list, which carries that end mark, does. `none` is
-- a null dereference or a failed assertion.
unfoldable pub create_list : Glib → List (ℕ × VaArg) → Option (List GObexHeader × ℕ)
create_list g [] = some ([], 0)
create_list g ((id, a) ∷ args) =
    let rest = create_list g args in
    if id == 0 then some ([], 0) else elim (create_one g id a) [
      | none ↦ none
      | some hdr ↦ elim rest [ none ↦ none | some (l, total) ↦ some (hdr ∷ l, hdr.hlen + total) ]
    ]
