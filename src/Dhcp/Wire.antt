-- ===== src/Dhcp/Wire.antt =====
-- Options that are sent, and how a reader finds them again.
use treiber.Base.{
  ℕ, zero, suc, ◌+◌, ◌%◌, ◌≤◌, ◌≡◌, refl, sym, ap, ◌∙◌, Bool, true, false, not, ◌&&◌, Option, none,
  some, List, [], ◌∷◌, ◌++◌, leb, ltb, ◌>>=◌, length, take, drop, arith, append_assoc, append-nil,
  drop-drop, length-append, length-drop, take-append, drop-append,
}
use mathlib.Core.Path.{ap₂}
use treiber.Buffer.Rep.{rep, Fits}
use treiber.Dhcp.{TuntapOptions, build_dhcp_options_string}
use treiber.Dhcp.Fields.{field, Line, takes, emit}
use treiber.Dhcp.Search.{encode_all}
use treiber.Dhcp.Build.{Opt, options, emit_all, build_dhcp_options_string_lem}

-- The options on the wire, one behind the other.
unfoldable pub wire : List Opt → List ℕ
wire [] = []
wire ((type, bytes) ∷ os) = field type bytes ++ wire os

-- The options can be sent: each has a type of one byte, at least one byte, and at most 255.
unfoldable pub sendable : List Opt → Bool
sendable [] = true
sendable ((type, bytes) ∷ os) =
    (ltb type 256 && leb 1 (length bytes) && leb (length bytes) 255) && sendable os

-- What a reader of options makes of a string of them; the fuel is for the number of options.
pub parse : ℕ → List ℕ → Option (List Opt)
parse zero bs = none
parse (suc fuel) [] = some []
parse (suc fuel) (t ∷ []) = none
parse (suc fuel) (t ∷ n ∷ bs) = do os ← parse fuel (drop n bs); some ((t, take n bs) ∷ os)

parse-wire : (os : List Opt) → sendable os ≡ true → parse (suc (length os)) (wire os) ≡ some os
unfolding parse wire sendable
parse-wire [] h = refl
parse-wire ((t, b) ∷ os) h =
    let small : t % 256 ≡ t = ground arith in
    rw (
      small,
      drop-append (length b) b (wire os) refl,
      take-append (length b) b (wire os) refl,
      parse-wire os (ground arith),
    )

emit_fits :
    (type : ℕ) (bytes : List ℕ) (l : Line)
    → 1 ≤ length bytes
    → length bytes ≤ 255
    → length bytes + 2 ≤ length l.room
    → emit type bytes l ≡ record l {
      content = l.content ++ field type bytes;
      room = drop (length (field type bytes)) l.room;
    }
unfolding emit takes
emit_fits type bytes l one most h = ground arith

emit_all_fits :
    (os : List Opt) (l : Line)
    → sendable os ≡ true
    → length (wire os) ≤ length l.room
    → emit_all os l
      ≡ record l { content = l.content ++ wire os; room = drop (length (wire os)) l.room }
unfolding emit_all wire sendable
emit_all_fits [] l s h = rw (append-nil l.content)
emit_all_fits ((t, b) ∷ os) l s h =
    let a = length-append {A = ℕ} (field t b) (wire os) in
    let l' : Line = record l {
      content = l.content ++ field t b;
      room = drop (length (field t b)) l.room;
    } in
    rw (emit_fits t b l (ground arith) (ground arith) (omega (arith, a))) (
      emit_all_fits os l' (ground arith)
        (omega (arith, a, length-drop {A = ℕ} (length (field t b)) l.room))
      ∙ ap₂ (λ x y. record l { content = x; room = y })
          (append_assoc l.content (field t b) (wire os))
          (drop-drop (length (field t b)) (length (wire os)) l.room
            ∙ ap (λ n. drop n l.room) (sym a)))

-- Where all options can be sent and there is room for them, `build_dhcp_options_string` answers true, the
-- buffer has gained them, and a reader finds the options in what was added. The domains to search for
-- fit `tmp_buf`.
pub build_dhcp_options_string-parse :
    (tmp pre c room : List ℕ) (o : TuntapOptions)
    → length tmp ≡ 256
    → Fits pre c room
    → length (encode_all o.domain_search_list) ≤ 256
    → sendable (options o) ≡ true
    → length (wire (options o)) ≤ length room
    → (build_dhcp_options_string tmp (rep pre c room) o
        ≡ some (true, rep pre (c ++ wire (options o)) (drop (length (wire (options o))) room)))
      × (parse (suc (length (options o))) (wire (options o)) ≡ some (options o))
build_dhcp_options_string-parse tmp pre c room o e f h s r = (
  build_dhcp_options_string_lem tmp pre c room o e f h
      ∙ ap (λ (l : Line). some (not l.failed, rep pre l.content l.room))
          (emit_all_fits (options o) (record { failed = false; content = c; room = room }) s r),
  parse-wire (options o) s,
)
