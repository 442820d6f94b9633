-- ===== src/Dhcp.antt =====
-- `Treiber/lib/tun.c`, the options of DHCP: `build_dhcp_options_string` and the functions under it, on the
-- buffers of `Buffer`. A string is the list of its characters in front of its NUL, an array the list
-- of its elements, at most N_DHCP_ADDR of them. `none` is a write beyond `tmp_buf`.
pub mod Fields
pub mod Writers
pub mod Search
pub mod Build
pub mod Wire
mod Tests
use treiber.Base.{
  ℕ, suc, ◌+◌, ◌-◌, ◌*◌, ◌%◌, Bool, true, false, not, ◌||◌, Option, none, some, List, [], ◌∷◌, ltb,
  ◌==◌, if◌then◌else◌, ◌>>=◌, length, set,
}
use treiber.Base.Int.{ℤ, pos}
use treiber.Buffer.{Buffer, buf_safe}
use treiber.Buffer.Access.{buf_write, buf_write_u8, buf_write_u32}

abbrev pub put_u8 : ℕ → Buffer → Buffer
put_u8 n buf = (buf_write_u8 buf (pos n)).1

abbrev pub put_u32 : ℕ → Buffer → Buffer
put_u32 n buf = (buf_write_u32 buf (pos n)).1

-- The writers take `*error` and give it back, with the buffer.
pub write_dhcp_u8 : Buffer → ℕ → ℤ → Bool → Bool × Buffer
write_dhcp_u8 buf type value error =
    if not (buf_safe buf (pos 3))
    then (true, buf)
    else (error, (buf_write_u8 (put_u8 1 (put_u8 type buf)) value).1)

pub put_u32s : List ℕ → Buffer → Buffer
put_u32s [] buf = buf
put_u32s (n ∷ ns) buf = put_u32s ns (put_u32 n buf)

pub write_dhcp_u32_array : Buffer → ℕ → List ℕ → Bool → Bool × Buffer
unfolding put_u32s
write_dhcp_u32_array buf type ns error =
    if length ns == 0
    then (error, buf)
    else (let size = length ns * 4 in
        if not (buf_safe buf (pos (2 + size)))
        then (true, buf)
        else if ltb size 1 || ltb 255 size
        then (true, buf)
        else (error, put_u32s ns (put_u8 size (put_u8 type buf))))

pub write_dhcp_str : Buffer → ℕ → List ℕ → Bool → Bool × Buffer
write_dhcp_str buf type str error =
    let len = length str in
    if not (buf_safe buf (pos (2 + len)))
    then (true, buf)
    else if ltb len 1 || ltb 255 len
    then (true, buf)
    else (error, (buf_write (put_u8 len (put_u8 type buf)) str (pos len)).1)

-- `tmp_buf[i] = v`
pub put : List ℕ → ℕ → ℕ → Option (List ℕ)
put tmp i v = if ltb i (length tmp) then some (set tmp i v) else none

-- The loop on the characters of a domain: `tmp_buf`, `len` and `label_length_pos`.
pub copy_labels : List ℕ → List ℕ → ℕ → ℕ → Option (List ℕ × ℕ)
unfolding put
copy_labels [] tmp len label_length_pos = do
  tmp' ← put tmp label_length_pos ((len - label_length_pos - 1) % 256)
  some (tmp', len)
copy_labels (c ∷ cs) tmp len label_length_pos = do
  let dot = c == b'.'
  tmp' ← if dot then put tmp label_length_pos ((len - label_length_pos - 1) % 256) else some tmp
  tmp'' ← put tmp' len c
  copy_labels cs tmp'' (suc len) (if dot then len else label_length_pos)

-- The loop on the domains: whether it gave up, `tmp_buf` and `len`.
pub search_loop : List (List ℕ) → List ℕ → ℕ → Option (Bool × List ℕ × ℕ)
unfolding copy_labels put
search_loop [] tmp len = some (false, tmp, len)
search_loop (s ∷ ss) tmp len = elim (ltb (length tmp) (length s + len + 1)) [
  | true ↦ some (true, tmp, len)
  | false ↦ do
    r ← copy_labels s tmp (suc len) len
    tmp' ← put r.0 r.1 0
    search_loop ss tmp' (suc r.1)
]

-- `tmp_buf` has 256 bytes, whatever they are.
pub write_dhcp_search_str : List ℕ → Buffer → ℕ → List (List ℕ) → Bool → Option (Bool × Buffer)
unfolding search_loop
write_dhcp_search_str tmp_buf buf type strs error = do
  r ← search_loop strs tmp_buf 0
  let tmp = r.1
  let len = r.2
  some (
      if r.0
      then (true, buf)
      else if not (buf_safe buf (pos (2 + len)))
      then (true, buf)
      else if ltb 255 len
      then (true, buf)
      else (error, (buf_write (put_u8 len (put_u8 type buf)) tmp (pos len)).1))

-- The members of `struct tuntap_options` that are options of DHCP.
pub record TuntapOptions : Type 0 where
  pub domain : Option (List ℕ)
  pub netbios_scope : Option (List ℕ)
  pub netbios_node_type : ℕ
  pub dns : List ℕ
  pub wins : List ℕ
  pub ntp : List ℕ
  pub nbdd : List ℕ
  pub domain_search_list : List (List ℕ)
  pub disable_nbt : Bool

abbrev pub write_some : ℕ → Option (List ℕ) → Bool × Buffer → Bool × Buffer
write_some type none r = r
write_some type (some str) r = write_dhcp_str r.1 type str r.0

-- `build_dhcp_options_string`: what it answers, and the buffer.
pub build_dhcp_options_string : List ℕ → Buffer → TuntapOptions → Option (Bool × Buffer)
build_dhcp_options_string tmp_buf buf o = do
  let r₁ = write_some 15 o.domain (false, buf)
  let r₂ = write_some 47 o.netbios_scope r₁
  let r₃ =
      if o.netbios_node_type == 0 then r₂ else write_dhcp_u8 r₂.1 46 (pos o.netbios_node_type) r₂.0
  let r₄ = write_dhcp_u32_array r₃.1 6 o.dns r₃.0
  let r₅ = write_dhcp_u32_array r₄.1 44 o.wins r₄.0
  let r₆ = write_dhcp_u32_array r₅.1 42 o.ntp r₅.0
  let r₇ = write_dhcp_u32_array r₆.1 45 o.nbdd r₆.0
  r ←
      if length o.domain_search_list == 0
      then some r₇
      else write_dhcp_search_str tmp_buf r₇.1 119 o.domain_search_list r₇.0
  some (
      if o.disable_nbt
      then (if not (buf_safe r.1 (pos 8))
          then (false, r.1)
          else (not r.0, put_u32 2 (put_u8 4 (put_u8 1 (put_u8 6 (put_u8 43 r.1))))))
      else (not r.0, r.1))
