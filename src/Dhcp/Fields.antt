-- ===== src/Dhcp/Fields.antt =====
-- What the writers of options add to a buffer: an option is its type, its length and its bytes.
use treiber.Base.{
  ℕ, ◌+◌, ◌%◌, ◌≤◌, ◌≡◌, ap, ◌∙◌, Bool, true, ◌&&◌, List, [], ◌∷◌, ◌++◌, leb, if◌then◌else◌, length,
  drop, arith, append_assoc, drop-drop, length-append, length-drop, take,
}
use treiber.Base.Int.{pos}
use treiber.Buffer.{Buffer}
use treiber.Buffer.Rep.{rep, Fits}
use treiber.Buffer.Access.{buf_write}
use treiber.Buffer.Access.Write.{write_room}
use treiber.Buffer.Access.Numbers.{write_u8_room, write_u32_room}
use treiber.Dhcp.{put_u8, put_u32}

-- An option on the wire.
abbrev pub field : ℕ → List ℕ → List ℕ
field type bytes = (type % 256) ∷ (length bytes) ∷ bytes

-- The error, the bytes in front of the content, the content and the room behind it.
pub record Line : Type 0 where
  pub failed : Bool
  pub content : List ℕ
  pub room : List ℕ

abbrev pub at : List ℕ → Line → Bool × Buffer
at pre l = (l.failed, rep pre l.content l.room)

unfoldable pub takes : Line → List ℕ → Bool
takes l bytes =
    leb 1 (length bytes) && leb (length bytes) 255 && leb (length bytes + 2) (length l.room)

-- An option is added as a whole where it has at least one byte and at most 255 and there is room for
-- it; otherwise nothing is written, and the error is set.
unfoldable pub emit : ℕ → List ℕ → Line → Line
unfolding takes
emit type bytes l =
    if takes l bytes
    then record l {
      content = l.content ++ field type bytes;
      room = drop (length (field type bytes)) l.room;
    }
    else record l { failed = true }

-- Bytes put behind the content, where there is room.
abbrev pub added : List ℕ → List ℕ → List ℕ → List ℕ → Buffer
added pre c xs room = rep pre (c ++ xs) (drop (length xs) room)

pub added_more :
    (pre c xs ys room : List ℕ)
    → added pre (c ++ xs) ys (drop (length xs) room) ≡ added pre c (xs ++ ys) room
added_more pre c xs ys room = ground (
  arith,
  append_assoc c xs ys,
  drop-drop (length xs) (length ys) room,
  length-append {A = ℕ} xs ys,
)

pub Fits-added :
    (pre c xs room : List ℕ)
    → Fits pre c room
    → length xs ≤ length room
    → Fits pre (c ++ xs) (drop (length xs) room)
Fits-added pre c xs room f h =
    omega (arith, length-append {A = ℕ} c xs, length-drop {A = ℕ} (length xs) room)

pub put_u8_room :
    (pre c room : List ℕ) (n : ℕ)
    → Fits pre c room
    → 1 ≤ length room
    → put_u8 n (rep pre c room) ≡ added pre c ((n % 256) ∷ []) room
put_u8_room pre c room n f h = ap (λ r. r.1) (write_u8_room pre c room (pos n) f h)

-- The type and the length, and then what is written behind them.
pub put_field :
    (pre c room : List ℕ) (type n : ℕ)
    → Fits pre c room
    → n ≤ 255
    → 2 ≤ length room
    → put_u8 n (put_u8 type (rep pre c room)) ≡ added pre c ((type % 256) ∷ n ∷ []) room
put_field pre c room type n f hn h =
    rw
      (
        put_u8_room pre c room type f (omega arith),
        put_u8_room pre (c ++ ((type % 256) ∷ [])) (drop 1 room) n
            (Fits-added pre c ((type % 256) ∷ []) room f (omega arith))
            (omega (arith, length-drop {A = ℕ} 1 room)),
      )
      (added_more pre c ((type % 256) ∷ []) ((n % 256) ∷ []) room
        ∙ ap (λ k. added pre c ((type % 256) ∷ k ∷ []) room) (omega arith))

-- An option whose bytes are written at once, from the front of an array.
pub put_str :
    (pre c room : List ℕ) (type : ℕ) (bytes src : List ℕ)
    → Fits pre c room
    → length bytes ≤ length src
    → take (length bytes) src ≡ bytes
    → length bytes ≤ 255
    → length bytes + 2 ≤ length room
    → (buf_write (put_u8 (length bytes) (put_u8 type (rep pre c room))) src (pos (length bytes))).1
      ≡ added pre c (field type bytes) room
put_str pre c room type bytes src f hs ht hn h =
    let head = (type % 256) ∷ length bytes ∷ [] in
    rw
      (
        put_field pre c room type (length bytes) f hn (omega arith),
        write_room pre (c ++ head) (drop 2 room) src (length bytes)
            (Fits-added pre c head room f (omega arith)) hs
            (omega (arith, length-drop {A = ℕ} 2 room)),
        ht,
      )
      (added_more pre c head bytes room)

-- The option of the vendor.
pub put_vendor :
    (pre c room : List ℕ)
    → Fits pre c room
    → 8 ≤ length room
    → put_u32 2 (put_u8 4 (put_u8 1 (put_u8 6 (put_u8 43 (rep pre c room)))))
      ≡ added pre c (field 43 (1 ∷ 4 ∷ 0 ∷ 0 ∷ 0 ∷ 2 ∷ [])) room
put_vendor pre c room f h =
    let two : List ℕ = 43 ∷ 6 ∷ [] in
    let three : List ℕ = 43 ∷ 6 ∷ 1 ∷ [] in
    let four : List ℕ = 43 ∷ 6 ∷ 1 ∷ 4 ∷ [] in
    rw
      (
        put_field pre c room 43 6 f (omega arith) (omega arith),
        put_u8_room pre (c ++ two) (drop 2 room) 1 (Fits-added pre c two room f (omega arith))
            (omega (arith, length-drop {A = ℕ} 2 room)),
        added_more pre c two (1 ∷ []) room,
        put_u8_room pre (c ++ three) (drop 3 room) 4 (Fits-added pre c three room f (omega arith))
            (omega (arith, length-drop {A = ℕ} 3 room)),
        added_more pre c three (4 ∷ []) room,
        ap (λ r. r.1)
            (write_u32_room pre (c ++ four) (drop 4 room) (pos 2)
              (Fits-added pre c four room f (omega arith))
              (omega (arith, length-drop {A = ℕ} 4 room))),
      )
      (added_more pre c four (0 ∷ 0 ∷ 0 ∷ 2 ∷ []) room)
