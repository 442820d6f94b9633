-- ===== src/Dhcp/Writers.antt =====
-- What each writer adds to a buffer.
use treiber.Base.{
  ℕ, ◌+◌, ◌*◌, ◌%◌, ◌≤◌, ◌^◌, ◌≡◌, refl, sym, ap, ◌∙◌, Bool, true, false, not, ◌||◌, List, [], ◌∷◌,
  ◌++◌, leb, ltb, ◌==◌, if◌then◌else◌, length, drop, arith, append-nil, length-drop, Bool-cases,
  inl, inr, take, take-of_length_le,
}
use treiber.Base.Int.{pos}
use treiber.Buffer.{Buffer, buf_safe}
use treiber.Buffer.Rep.{rep, Fits, safe-rep}
use treiber.Buffer.Access.{bytes_32, buf_write}
use treiber.Buffer.Access.Numbers.{write_u32_room}
use treiber.Dhcp.{put_u8, put_u32, write_dhcp_u8, put_u32s, write_dhcp_u32_array, write_dhcp_str}
use treiber.Dhcp.Fields.{
  field, Line, at, takes, emit, added, added_more, Fits-added, put_u8_room, put_field, put_str,
  put_vendor,
}

-- The guards of the writers are those of an option that fits.
guarded :
    (l : Line) (bytes : List ℕ) (n : ℕ) (x y : Bool × Buffer)
    → n ≡ length bytes
    → (if not (leb (2 + n) (length l.room)) then x else if ltb n 1 || ltb 255 n then x else y)
      ≡ (if takes l bytes then y else x)
unfolding takes
guarded l bytes n x y e = ground arith

guarded_one :
    (l : Line) (b : ℕ) (x y : Bool × Buffer)
    → (if not (leb 3 (length l.room)) then x else y) ≡ (if takes l (b ∷ []) then y else x)
unfolding takes
guarded_one l b x y = ground arith

guarded_front :
    (l : Line) (bytes : List ℕ) (x y : Bool × Buffer)
    → 1 ≤ length bytes
    → (if not (leb (2 + length bytes) (length l.room))
        then x
        else if ltb 255 (length bytes)
        then x
        else y)
      ≡ (if takes l bytes then y else x)
unfolding takes
guarded_front l bytes x y one = ground arith

guarded_eight :
    (l : Line) (x y : Bool × Buffer)
    → (if not (leb 8 (length l.room)) then x else y)
      ≡ (if takes l (1 ∷ 4 ∷ 0 ∷ 0 ∷ 0 ∷ 2 ∷ []) then y else x)
unfolding takes
guarded_eight l x y = ground arith

takes_fits :
    (l : Line) (bytes : List ℕ)
    → takes l bytes ≡ true
    → (length bytes ≤ 255) × (length bytes + 2 ≤ length l.room)
unfolding takes
takes_fits l bytes h = ground arith

-- Where the bytes are added if they fit, and the error is set if they do not, an option is emitted.
emitted :
    (pre : List ℕ) (l : Line) (type : ℕ) (bytes : List ℕ) (b : Buffer)
    → (takes l bytes ≡ true → b ≡ added pre l.content (field type bytes) l.room)
    → (if takes l bytes then (l.failed, b) else (true, rep pre l.content l.room))
      ≡ at pre (emit type bytes l)
unfolding emit
emitted pre l type bytes b h = elim (Bool-cases (takes l bytes)) [
  | inl good ↦ rw good (ap (λ b'. (l.failed, b')) (h good))
  | inr bad ↦ rw bad
]

pub write_dhcp_str-emit :
    (pre : List ℕ) (l : Line) (type : ℕ) (str : List ℕ)
    → Fits pre l.content l.room
    → write_dhcp_str (rep pre l.content l.room) type str l.failed ≡ at pre (emit type str l)
unfolding write_dhcp_str
write_dhcp_str-emit pre l type str f = rw (safe-rep pre l.content l.room (2 + length str) f) (
    guarded l str (length str) _ _ refl
    ∙ emitted pre l type str _ (λ good.
      put_str pre l.content l.room type str str f (omega arith)
        (take-of_length_le (length str) str (omega arith)) (takes_fits l str good).0
        (takes_fits l str good).1))

put_one :
    (pre c room : List ℕ) (type value : ℕ)
    → Fits pre c room
    → 3 ≤ length room
    → put_u8 value (put_u8 1 (put_u8 type (rep pre c room)))
      ≡ added pre c (field type ((value % 256) ∷ [])) room
put_one pre c room type value f h =
    let head = (type % 256) ∷ 1 ∷ [] in
    rw
      (
        put_field pre c room type 1 f (omega arith) (omega arith),
        put_u8_room pre (c ++ head) (drop 2 room) value (Fits-added pre c head room f (omega arith))
            (omega (arith, length-drop {A = ℕ} 2 room)),
      )
      (added_more pre c head ((value % 256) ∷ []) room)

pub write_dhcp_u8-emit :
    (pre : List ℕ) (l : Line) (type value : ℕ)
    → Fits pre l.content l.room
    → write_dhcp_u8 (rep pre l.content l.room) type (pos value) l.failed
      ≡ at pre (emit type ((value % 256) ∷ []) l)
unfolding write_dhcp_u8
write_dhcp_u8-emit pre l type value f = rw (safe-rep pre l.content l.room 3 f) (
    guarded_one l (value % 256) _ _
    ∙ emitted pre l type ((value % 256) ∷ []) _ (λ good.
      put_one pre l.content l.room type value f (takes_fits l ((value % 256) ∷ []) good).1))

unfoldable pub bytes_of : List ℕ → List ℕ
bytes_of [] = []
bytes_of (n ∷ ns) = bytes_32 (n % 2 ^ 32) ++ bytes_of ns

length-bytes_of : (ns : List ℕ) → length (bytes_of ns) ≡ length ns * 4
unfolding bytes_of
length-bytes_of [] = refl
length-bytes_of (n ∷ ns) = omega (arith, length-bytes_of ns)

put_u32s_room :
    (pre c room ns : List ℕ)
    → Fits pre c room
    → length ns * 4 ≤ length room
    → put_u32s ns (rep pre c room) ≡ added pre c (bytes_of ns) room
unfolding put_u32s bytes_of
put_u32s_room pre c room [] f h = ap (λ k. rep pre k room) (sym (append-nil c))
put_u32s_room pre c room (n ∷ ns) f h =
    let b = bytes_32 (n % 2 ^ 32) in
    rw
      (
        ap (λ r. r.1) (write_u32_room pre c room (pos n) f (omega arith)),
        put_u32s_room pre (c ++ b) (drop 4 room) ns (Fits-added pre c b room f (omega arith))
            (omega (arith, length-drop {A = ℕ} 4 room)),
      )
      (added_more pre c b (bytes_of ns) room)

put_array :
    (pre c room : List ℕ) (type : ℕ) (ns : List ℕ)
    → Fits pre c room
    → length (bytes_of ns) ≤ 255
    → length (bytes_of ns) + 2 ≤ length room
    → put_u32s ns (put_u8 (length ns * 4) (put_u8 type (rep pre c room)))
      ≡ added pre c (field type (bytes_of ns)) room
put_array pre c room type ns f hn h =
    let head = (type % 256) ∷ length (bytes_of ns) ∷ [] in
    rw
      (
        ← length-bytes_of ns,
        put_field pre c room type (length (bytes_of ns)) f hn (omega arith),
        put_u32s_room pre (c ++ head) (drop 2 room) ns (Fits-added pre c head room f (omega arith))
            (omega (arith, length-bytes_of ns, length-drop {A = ℕ} 2 room)),
      )
      (added_more pre c head (bytes_of ns) room)

pub write_dhcp_u32_array-emit :
    (pre : List ℕ) (l : Line) (type : ℕ) (ns : List ℕ)
    → Fits pre l.content l.room
    → write_dhcp_u32_array (rep pre l.content l.room) type ns l.failed
      ≡ at pre (if length ns == 0 then l else emit type (bytes_of ns) l)
unfolding write_dhcp_u32_array
write_dhcp_u32_array-emit pre l type [] f = refl
write_dhcp_u32_array-emit pre l type (n ∷ ns) f =
    let bytes = bytes_of (n ∷ ns) in
    let size = length (n ∷ ns) * 4 in
    let some_left : (length (n ∷ ns) == 0) ≡ false = ground arith in
    rw (some_left, safe-rep pre l.content l.room (2 + size) f)
      (guarded l bytes size _ _ (sym (length-bytes_of (n ∷ ns)))
        ∙ emitted pre l type bytes _ (λ good.
          put_array pre l.content l.room type (n ∷ ns) f (takes_fits l bytes good).0
            (takes_fits l bytes good).1))

-- The bytes that stand at the front of an array, at least one of them.
pub write_front_emit :
    (pre : List ℕ) (l : Line) (type : ℕ) (bytes src : List ℕ)
    → Fits pre l.content l.room
    → 1 ≤ length bytes
    → length bytes ≤ length src
    → take (length bytes) src ≡ bytes
    → (if not (buf_safe (rep pre l.content l.room) (pos (2 + length bytes)))
        then (true, rep pre l.content l.room)
        else if ltb 255 (length bytes)
        then (true, rep pre l.content l.room)
        else (
          l.failed,
          (buf_write
              (put_u8 (length bytes) (put_u8 type (rep pre l.content l.room)))
              src
              (pos (length bytes))).1,
        ))
      ≡ at pre (emit type bytes l)
write_front_emit pre l type bytes src f one hs ht =
    rw (safe-rep pre l.content l.room (2 + length bytes) f, guarded_front l bytes _ _ one)
      (emitted pre l type bytes _ (λ good.
        put_str pre l.content l.room type bytes src f hs ht (takes_fits l bytes good).0
          (takes_fits l bytes good).1))

pub vendor_emit :
    (pre : List ℕ) (l : Line)
    → Fits pre l.content l.room
    → (if not (buf_safe (rep pre l.content l.room) (pos 8))
        then (true, rep pre l.content l.room)
        else (
          l.failed,
          put_u32 2 (put_u8 4 (put_u8 1 (put_u8 6 (put_u8 43 (rep pre l.content l.room))))),
        ))
      ≡ at pre (emit 43 (1 ∷ 4 ∷ 0 ∷ 0 ∷ 0 ∷ 2 ∷ []) l)
vendor_emit pre l f = rw (safe-rep pre l.content l.room 8 f) (
    guarded_eight l _ _
    ∙ emitted pre l 43 (1 ∷ 4 ∷ 0 ∷ 0 ∷ 0 ∷ 2 ∷ []) _ (λ good.
      put_vendor pre l.content l.room f (takes_fits l (1 ∷ 4 ∷ 0 ∷ 0 ∷ 0 ∷ 2 ∷ []) good).1))

pub emit-Fits :
    (pre : List ℕ) (l : Line) (type : ℕ) (bytes : List ℕ)
    → Fits pre l.content l.room
    → Fits pre (emit type bytes l).content (emit type bytes l).room
unfolding emit
emit-Fits pre l type bytes f = elim (Bool-cases (takes l bytes)) [
  | inl good ↦ rw good (
      Fits-added pre l.content (field type bytes) l.room f
        (omega (arith, (takes_fits l bytes good).1)))
  | inr bad ↦ rw bad f
]
