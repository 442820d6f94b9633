-- ===== src/Dhcp/Build.antt =====
-- All options of a tunnel: what `build_dhcp_options_string` adds to a buffer, and that it can be read back.
use treiber.Base.{
  ℕ, ◌+◌, ◌%◌, ◌≤◌, ◌≡◌, refl, ap, ◌∙◌, Bool, true, false, not, Option, none, some, List, [], ◌∷◌,
  ◌++◌, ◌==◌, if◌then◌else◌, length, take-append, length-append, drop, arith, Bool-cases, inl, inr,
}
use treiber.Base.Int.{pos}
use treiber.Buffer.{Buffer, buf_safe}
use treiber.Buffer.Rep.{rep, Fits}
use treiber.Dhcp.{
  write_some, put_u8, put_u32, write_dhcp_u8, write_dhcp_u32_array, write_dhcp_search_str,
  TuntapOptions, build_dhcp_options_string,
}
use treiber.Dhcp.Fields.{field, Line, at, emit}
use treiber.Dhcp.Writers.{
  bytes_of, emit-Fits, vendor_emit, write_front_emit, write_dhcp_str-emit, write_dhcp_u8-emit,
  write_dhcp_u32_array-emit,
}
use treiber.Dhcp.Search.{encode_all, length-encode_all, search_loop_lem}

-- An option: its type and its bytes.
abbrev pub Opt : Type 0
Opt = ℕ × List ℕ

abbrev of_string : ℕ → Option (List ℕ) → List Opt
of_string type none = []
of_string type (some s) = (type, s) ∷ []

abbrev of_numbers : ℕ → List ℕ → List Opt
of_numbers type ns = if length ns == 0 then [] else (type, bytes_of ns) ∷ []

unfoldable of_domains : List (List ℕ) → List Opt
unfolding encode_all
of_domains ss = if length ss == 0 then [] else (119, encode_all ss) ∷ []

of_number : ℕ → ℕ → List Opt
of_number type n = if n == 0 then [] else (type, (n % 256) ∷ []) ∷ []

vendor : Bool → List Opt
vendor disabled = if disabled then (43, 1 ∷ 4 ∷ 0 ∷ 0 ∷ 0 ∷ 2 ∷ []) ∷ [] else []

-- What is answered.
abbrev pub answer : List ℕ → Line → Bool × Buffer
answer pre l = (not l.failed, rep pre l.content l.room)

abbrev verdict : Bool × Buffer → Bool × Buffer
verdict r = (not r.0, r.1)

negated :
    (fits : Bool) (b b' : Buffer) (failed : Bool)
    → (if not fits then (false, b) else verdict (failed, b'))
      ≡ verdict (if not fits then (true, b) else (failed, b'))
negated true b b' failed = refl
negated false b b' failed = refl

-- The options that the structure stands for, in the order in which they are sent.
unfoldable pub options : TuntapOptions → List Opt
unfolding of_number of_domains vendor
options o =
    of_string 15 o.domain
    ++ (of_string 47 o.netbios_scope
        ++ (of_number 46 o.netbios_node_type
            ++ (of_numbers 6 o.dns
                ++ (of_numbers 44 o.wins
                    ++ (of_numbers 42 o.ntp
                        ++ (of_numbers 45 o.nbdd
                            ++ (of_domains o.domain_search_list ++ vendor o.disable_nbt)))))))

unfoldable pub emit_all : List Opt → Line → Line
unfolding emit
emit_all [] l = l
emit_all ((type, bytes) ∷ os) l = emit_all os (emit type bytes l)

emit_all-append :
    (os ps : List Opt) (l : Line) → emit_all (os ++ ps) l ≡ emit_all ps (emit_all os l)
unfolding emit_all
emit_all-append [] ps l = refl
emit_all-append ((t, b) ∷ os) ps l = emit_all-append os ps (emit t b l)

-- The options on the wire, one behind the other.
pub wire : List Opt → List ℕ
wire [] = []
wire ((type, bytes) ∷ os) = field type bytes ++ wire os

-- The line stays that of a buffer of the same size.
emit_all-Fits :
    (pre : List ℕ) (os : List Opt) (l : Line)
    → Fits pre l.content l.room
    → Fits pre (emit_all os l).content (emit_all os l).room
unfolding emit_all
emit_all-Fits pre [] l f = f
emit_all-Fits pre ((t, b) ∷ os) l f = emit_all-Fits pre os (emit t b l) (emit-Fits pre l t b f)

string_step :
    (pre : List ℕ) (type : ℕ) (o : Option (List ℕ)) (l : Line)
    → Fits pre l.content l.room
    → write_some type o (at pre l) ≡ at pre (emit_all (of_string type o) l)
unfolding emit_all
string_step pre type none l f = refl
string_step pre type (some s) l f = write_dhcp_str-emit pre l type s f

number_step :
    (pre : List ℕ) (type n : ℕ) (l : Line)
    → Fits pre l.content l.room
    → (if n == 0 then at pre l else write_dhcp_u8 (rep pre l.content l.room) type (pos n) l.failed)
      ≡ at pre (emit_all (of_number type n) l)
unfolding emit_all of_number
number_step pre type n l f = elim (Bool-cases (n == 0)) [
  | inl nothing ↦ rw nothing
  | inr something ↦ rw something (write_dhcp_u8-emit pre l type n f)
]

numbers_line :
    (type : ℕ) (ns : List ℕ) (l : Line)
    → (if length ns == 0 then l else emit type (bytes_of ns) l) ≡ emit_all (of_numbers type ns) l
unfolding emit_all
numbers_line type ns l = elim (Bool-cases (length ns == 0)) [
  | inl nothing ↦ rw nothing
  | inr something ↦ rw something
]

numbers_step :
    (pre : List ℕ) (type : ℕ) (ns : List ℕ) (l : Line)
    → Fits pre l.content l.room
    → write_dhcp_u32_array (rep pre l.content l.room) type ns l.failed
      ≡ at pre (emit_all (of_numbers type ns) l)
unfolding emit_all
numbers_step pre type ns l f =
    write_dhcp_u32_array-emit pre l type ns f ∙ ap (at pre) (numbers_line type ns l)

search_step :
    (pre tmp : List ℕ) (ss : List (List ℕ)) (l : Line)
    → Fits pre l.content l.room
    → length tmp ≡ 256
    → length (encode_all ss) ≤ 256
    → (if length ss == 0
        then some (at pre l)
        else write_dhcp_search_str tmp (rep pre l.content l.room) 119 ss l.failed)
      ≡ some (at pre (emit_all (of_domains ss) l))
unfolding emit_all of_domains write_dhcp_search_str
search_step pre tmp [] l f e h = refl
search_step pre tmp (s ∷ ss) l f e h =
    let some_left : (length (s ∷ ss) == 0) ≡ false = ground arith in
    let bytes = encode_all (s ∷ ss) in
    let z : 0 + length bytes ≡ length bytes = omega arith in
    rw (some_left, search_loop_lem (s ∷ ss) [] tmp 0 refl (omega arith) (omega arith), z)
      (ap some (
        write_front_emit pre l 119 bytes (bytes ++ drop (length bytes) tmp) f
          (length-encode_all s ss)
          (omega (arith, length-append {A = ℕ} bytes (drop (length bytes) tmp)))
          (take-append (length bytes) bytes (drop (length bytes) tmp) refl)))

vendor_step :
    (pre : List ℕ) (disabled : Bool) (l : Line)
    → Fits pre l.content l.room
    → (if disabled
        then (if not (buf_safe (rep pre l.content l.room) (pos 8))
            then (false, rep pre l.content l.room)
            else (
              not l.failed,
              put_u32 2 (put_u8 4 (put_u8 1 (put_u8 6 (put_u8 43 (rep pre l.content l.room))))),
            ))
        else (not l.failed, rep pre l.content l.room))
      ≡ answer pre (emit_all (vendor disabled) l)
unfolding emit_all vendor
vendor_step pre false l f = refl
vendor_step pre true l f =
    negated _ (rep pre l.content l.room) _ l.failed ∙ ap verdict (vendor_emit pre l f)

-- The line behind all options is the one behind each kind of them in turn.
emit_options :
    (o : TuntapOptions) (l : Line)
    → emit_all (options o) l
      ≡ emit_all (vendor o.disable_nbt) (
          emit_all (of_domains o.domain_search_list) (
            emit_all (of_numbers 45 o.nbdd) (
              emit_all (of_numbers 42 o.ntp) (
                emit_all (of_numbers 44 o.wins) (
                  emit_all (of_numbers 6 o.dns) (
                    emit_all (of_number 46 o.netbios_node_type) (
                      emit_all
                        (of_string 47 o.netbios_scope)
                        (emit_all (of_string 15 o.domain) l))))))))
unfolding options
emit_options o l = simp emit_all-append

-- The options are added to the buffer in order, each as a whole or not at all; the answer is whether none was
-- left out. The domains to search for fit `tmp_buf`.
pub build_dhcp_options_string_lem :
    (tmp pre c room : List ℕ) (o : TuntapOptions)
    → length tmp ≡ 256
    → Fits pre c room
    → length (encode_all o.domain_search_list) ≤ 256
    → build_dhcp_options_string tmp (rep pre c room) o
      ≡ some
          (answer pre (emit_all (options o) (record { failed = false; content = c; room = room })))
unfolding build_dhcp_options_string
build_dhcp_options_string_lem tmp pre c room o e f h =
    let l₀ : Line = record { failed = false; content = c; room = room } in
    let l₁ = emit_all (of_string 15 o.domain) l₀ in
    let f₁ = emit_all-Fits pre (of_string 15 o.domain) l₀ f in
    let l₂ = emit_all (of_string 47 o.netbios_scope) l₁ in
    let f₂ = emit_all-Fits pre (of_string 47 o.netbios_scope) l₁ f₁ in
    let l₃ = emit_all (of_number 46 o.netbios_node_type) l₂ in
    let f₃ = emit_all-Fits pre (of_number 46 o.netbios_node_type) l₂ f₂ in
    let l₄ = emit_all (of_numbers 6 o.dns) l₃ in
    let f₄ = emit_all-Fits pre (of_numbers 6 o.dns) l₃ f₃ in
    let l₅ = emit_all (of_numbers 44 o.wins) l₄ in
    let f₅ = emit_all-Fits pre (of_numbers 44 o.wins) l₄ f₄ in
    let l₆ = emit_all (of_numbers 42 o.ntp) l₅ in
    let f₆ = emit_all-Fits pre (of_numbers 42 o.ntp) l₅ f₅ in
    let l₇ = emit_all (of_numbers 45 o.nbdd) l₆ in
    let f₇ = emit_all-Fits pre (of_numbers 45 o.nbdd) l₆ f₆ in
    let l₈ = emit_all (of_domains o.domain_search_list) l₇ in
    let f₈ = emit_all-Fits pre (of_domains o.domain_search_list) l₇ f₇ in
    rw
      (
        emit_options o l₀,
        string_step pre 15 o.domain l₀ f,
        string_step pre 47 o.netbios_scope l₁ f₁,
        number_step pre 46 o.netbios_node_type l₂ f₂,
        numbers_step pre 6 o.dns l₃ f₃,
        numbers_step pre 44 o.wins l₄ f₄,
        numbers_step pre 42 o.ntp l₅ f₅,
        numbers_step pre 45 o.nbdd l₆ f₆,
        search_step pre tmp o.domain_search_list l₇ f₇ e h,
      )
      (ap some (vendor_step pre o.disable_nbt l₈ f₈))
