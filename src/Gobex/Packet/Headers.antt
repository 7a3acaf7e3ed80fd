-- ===== src/Gobex/Packet/Headers.antt =====
-- The packet's bookkeeping: its header list, the length that it keeps of it, and its data.
use map_client.Base.{
  ℕ, ◌+◌, ◌-◌, ◌^◌, ◌≤◌, ◌<◌, ◌≡◌, refl, subst, Option, some, none, List, [], ◌∷◌, ◌++◌, length,
  All, All-append, ◌==◌, if◌then◌else◌, arith,
}
use map_client.Base.Endian.{Bytes}
use map_client.Gobex.Defs.{Glib, GObexDataPolicy, enobufs}
use map_client.Gobex.Header.{GObexHeader, get_length, new_unicode, new_bytes, new_uint8, new_uint32}
use map_client.Gobex.Header.Codec.{encode as encode_header}
use map_client.Gobex.Header.WellFormed.{
  IsWellFormed, new_unicode-IsWellFormed, new_bytes-IsWellFormed, new_uint8-IsWellFormed,
  new_uint32-IsWellFormed,
}
use map_client.Gobex.Header.Build.{total_hlen, IsWritten}
use map_client.Gobex.Packet.{
  GObexPacket, prepend_header, add_header, add_unicode, add_bytes, add_uint8, add_uint32, add_body,
  add_new, set_data, get_header, find_header,
}
use map_client.Gobex.Packet.Codec.{
  Produced, Encoding, encoded, fails, encode_headers, encode_body, encode,
}
use map_client.Gobex.Packet.Encode.{HasData}

-- A header that g_obex_header_get_length, which returns 16 bits, measures right.
abbrev pub IsShort : GObexHeader → Type 0
IsShort h = h.hlen < 2 ^ 16

-- The packet is well formed and its `hlen` is the sum of its headers' lengths.
pub record IsConsistent {A : Type 0} (pkt : GObexPacket A) : Type 0 where
  pub well_formed : All IsWellFormed pkt.headers
  pub short : All IsShort pkt.headers
  pub summed : pkt.hlen ≡ total_hlen pkt.headers
  pub has_data : HasData pkt.buf pkt.data_len

total_hlen-append :
    (xs ys : List GObexHeader) → total_hlen (xs ++ ys) ≡ total_hlen xs + total_hlen ys
total_hlen-append [] ys = omega arith
total_hlen-append (x ∷ xs) ys = omega (arith, total_hlen-append xs ys)

-- The calls of the packet's interface that change it.
pub data Call (A : Type 0) : Type 0 where
  prepends adds : GObexHeader → Call A
  unicode : Glib → ℕ → Bytes → Call A
  bytes_header : ℕ → Bytes → Call A
  uint8 uint32 : ℕ → ℕ → Call A
  body : A → Call A
  sets_data : Bytes → GObexDataPolicy → Call A

abbrev pub call : {A : Type 0} → GObexPacket A → Call A → GObexPacket A
call pkt (prepends h) = prepend_header pkt h
call pkt (adds h) = add_header pkt h
call pkt (unicode g id s) = (add_unicode g pkt id s).0
call pkt (bytes_header id d) = (add_bytes pkt id d).0
call pkt (uint8 id n) = (add_uint8 pkt id n).0
call pkt (uint32 id n) = (add_uint32 pkt id n).0
call pkt (body f) = (add_body pkt f).0
call pkt (sets_data d policy) = (set_data pkt d policy).0

-- A header that is passed in is well formed; a text or byte array stays below 2^16 with its header.
abbrev pub IsAllowed : {A : Type 0} → Call A → Type 0
IsAllowed (prepends h) = IsWellFormed h × IsShort h
IsAllowed (adds h) = IsWellFormed h × IsShort h
IsAllowed (unicode g id s) = (h : GObexHeader) → new_unicode g id s ≡ some h → IsShort h
IsAllowed (bytes_header id d) = length d + 3 < 2 ^ 16
IsAllowed _ = Unit {0}

add_header-IsConsistent :
    {A : Type 0} (pkt : GObexPacket A) (h : GObexHeader)
    → IsConsistent pkt
    → IsWellFormed h
    → IsShort h
    → IsConsistent (add_header pkt h)
unfolding add_header get_length
add_header-IsConsistent pkt h c w s = record {
  well_formed = All-append IsWellFormed pkt.headers (h ∷ []) c.well_formed (w, tt);
  short = All-append IsShort pkt.headers (h ∷ []) c.short (s, tt);
  summed = omega (arith, total_hlen-append pkt.headers (h ∷ []), c.summed);
  has_data = c.has_data;
}

prepend_header-IsConsistent :
    {A : Type 0} (pkt : GObexPacket A) (h : GObexHeader)
    → IsConsistent pkt
    → IsWellFormed h
    → IsShort h
    → IsConsistent (prepend_header pkt h)
unfolding prepend_header get_length
prepend_header-IsConsistent pkt h c w s = record {
  well_formed = (w, c.well_formed);
  short = (s, c.short);
  summed = omega (arith, c.summed);
  has_data = c.has_data;
}

set_data-IsConsistent :
    {A : Type 0} (pkt : GObexPacket A) (d : Bytes) (policy : GObexDataPolicy)
    → IsConsistent pkt
    → IsConsistent (set_data pkt d policy).0
unfolding set_data
set_data-IsConsistent pkt d policy c = record {
  well_formed = subst (All IsWellFormed) (ground arith) c.well_formed;
  short = subst (All IsShort) (ground arith) c.short;
  summed = ground (arith, c.summed);
  has_data = ground (arith, c.has_data);
}

add_new-IsConsistent :
    {A : Type 0} (pkt : GObexPacket A) (o : Option GObexHeader)
    → IsConsistent pkt
    → ((h : GObexHeader) → o ≡ some h → IsWellFormed h × IsShort h)
    → IsConsistent (add_new pkt o).0
add_new-IsConsistent pkt none c good = c
add_new-IsConsistent pkt (some h) c good =
    let (w, s) = good h refl in add_header-IsConsistent pkt h c w s

add_body-IsConsistent :
    {A : Type 0} (pkt : GObexPacket A) (f : A) → IsConsistent pkt → IsConsistent (add_body pkt f).0
unfolding add_body
add_body-IsConsistent pkt f c = record {
  well_formed = subst (All IsWellFormed) (ground arith) c.well_formed;
  short = subst (All IsShort) (ground arith) c.short;
  summed = ground (arith, c.summed);
  has_data = ground (arith, c.has_data);
}

-- Every call of the interface keeps the packet consistent, whatever it answers, if the header or the
-- data that it is given is allowed.
pub call-IsConsistent :
    {A : Type 0} (pkt : GObexPacket A) (c : Call A)
    → IsConsistent pkt
    → IsAllowed c
    → IsConsistent (call pkt c)
unfolding add_unicode add_bytes add_uint8 add_uint32
call-IsConsistent pkt (prepends h) c (w, s) = prepend_header-IsConsistent pkt h c w s
call-IsConsistent pkt (adds h) c (w, s) = add_header-IsConsistent pkt h c w s
call-IsConsistent pkt (unicode g id s) c allowed =
    add_new-IsConsistent pkt (new_unicode g id s) c
      (λ h e. (new_unicode-IsWellFormed g id s h e, allowed h e))
call-IsConsistent pkt (bytes_header id d) c allowed =
    add_new-IsConsistent pkt (new_bytes id d) c
      (λ h e. (new_bytes-IsWellFormed id d h e, unfold new_bytes in ground arith))
call-IsConsistent pkt (uint8 id n) c allowed =
    add_new-IsConsistent pkt (new_uint8 id n) c
      (λ h e. (new_uint8-IsWellFormed id n h e, unfold new_uint8 in ground arith))
call-IsConsistent pkt (uint32 id n) c allowed =
    add_new-IsConsistent pkt (new_uint32 id n) c
      (λ h e. (new_uint32-IsWellFormed id n h e, unfold new_uint32 in ground arith))
call-IsConsistent pkt (body f) c allowed = add_body-IsConsistent pkt f c
call-IsConsistent pkt (sets_data d policy) c allowed = set_data-IsConsistent pkt d policy c

-- A header that an encoder with room for it writes: all but a text always, a text if its units are
-- as many as its characters.
abbrev pub IsEncodable : Glib → GObexHeader → Type 0
IsEncodable g h = (n : ℕ) → h.hlen ≤ n → IsWritten (encode_header g h n) h.hlen

abbrev pub IsEncoded : Encoding → ℕ → Type 0
IsEncoded (encoded bs count) n = count ≡ n
IsEncoded _ n = ⊥

hlen-pos : (h : GObexHeader) → IsWellFormed h → 2 ≤ h.hlen
hlen-pos h w = ground arith

encode_headers-IsEncoded :
    (g : Glib) (len : ℕ) (hs : List GObexHeader) (count : ℕ)
    → All IsWellFormed hs
    → All (IsEncodable g) hs
    → count + total_hlen hs ≤ len
    → IsEncoded (encode_headers g len hs count) (count + total_hlen hs)
unfolding encode_headers
encode_headers-IsEncoded g len [] count w e le = omega arith
encode_headers-IsEncoded g len (h ∷ hs) count (w, ws) (e, es) le = ground (
  arith,
  hlen-pos h w,
  e (len - count) (omega (arith, hlen-pos h w)),
  encode_headers-IsEncoded g len hs (count + h.hlen) ws es (omega arith),
)

-- A consistent packet without a producer, whose headers can each be encoded, is encoded exactly where it fits: with less room the answer
-- is ENOBUFS, with enough the count is that of the length field, the data and all headers.
pub encode_fits :
    {A S : Type 0} (g : Glib) (produce : A → ℕ → S → Produced × S) (pkt : GObexPacket A) (len : ℕ)
    (s : S)
    → IsConsistent pkt
    → All (IsEncodable g) pkt.headers
    → pkt.get_body ≡ none
    → let size = 3 + pkt.data_len + total_hlen pkt.headers in
      (len < size → encode g produce pkt len s ≡ (fails enobufs, s))
      × (size ≤ len → IsEncoded (encode g produce pkt len s).0 size)
unfolding encode encode_body
encode_fits g produce pkt len s c e nobody = (
  λ lt. ground (arith, c.summed),
  λ le. ground (
    arith,
    c.summed,
    encode_headers-IsEncoded g len pkt.headers (3 + pkt.data_len) c.well_formed e (omega arith),
  ),
)

find_header-append :
    (id : ℕ) (xs ys : List GObexHeader)
    → find_header id (xs ++ ys)
      ≡ (elim (find_header id xs) [ some h ↦ some h | none ↦ find_header id ys ])
unfolding find_header
find_header-append id [] ys = refl
find_header-append id (x ∷ xs) ys = ground (arith, find_header-append id xs ys)

-- Of several headers with one id the earliest is found: a header that was added shows only where the
-- packet had none with its id, and one that was put in front always.
pub get_header_after :
    {A : Type 0} (pkt : GObexPacket A) (h : GObexHeader) (id : ℕ)
    → (get_header (add_header pkt h) id ≡ (elim (get_header pkt id) [
      | some old ↦ some old
      | none ↦ if h.id == id then some h else none
    ]))
      × (get_header (prepend_header pkt h) id ≡ (if h.id == id then some h else get_header pkt id))
unfolding get_header add_header prepend_header find_header
get_header_after pkt h id = (find_header-append id pkt.headers (h ∷ []), refl)
