-- ===== src/Terminal/Line.antt =====
-- The line that `terminal_read` of student-distrib/keyboard.c returns is the line typed.
use mathlib.Core.Path.{subst}
use mathlib.Core.List.{append_assoc, append-nil}
use linux_os.Prelude.{
  ℕ, zero, suc, ◌+◌, ◌≡◌, ◌≢◌, ◌≤◌, ◌<◌, refl, ◌∙◌, ap, List, [], ◌∷◌, ◌++◌, some, true, false,
  ◌==◌, arith, length, update, if◌then◌else◌, sym, length-append,
}
use linux_os.Strings.Compare.{All}
use linux_os.Terminal.{
  Key, char, key_event, typing, take_line, terminal_read, Terminals, Copied, displayed,
  terminal_buf_add, terminal_read, take_line, copy_line,
}

abbrev pub IsLineChar : ℕ → Type 0
IsLineChar c = (c ≢ 10) × (c ≢ 0)

-- The buffer holds the characters from `i` on, and then a zero.
abbrev Holds : (ℕ → ℕ) → ℕ → List ℕ → Type 0
Holds buffer i [] = buffer i ≡ 0
Holds buffer i (c ∷ cs) = (buffer i ≡ c) × (c ≢ 0) × Holds buffer (i + 1) cs

Holds-update :
    (b : ℕ → ℕ) (i j v : ℕ) (cs : List ℕ) → j < i → Holds b i cs → Holds (update b j v) i cs
Holds-update b i j v [] lt h = ground arith
Holds-update b i j v (c ∷ cs) lt h =
    (ground arith, h.1, Holds-update b (i + 1) j v cs (omega arith) h.2)

copy_line_lem :
    (cs : List ℕ) (n i : ℕ) (b : ℕ → ℕ)
    → Holds b i cs
    → length cs < n
    → ((copy_line n i b).out ≡ cs ++ (0 ∷ [])) × ((copy_line n i b).numbytes ≡ length cs)
unfolding copy_line
copy_line_lem cs zero i b h l = absurd (omega arith)
copy_line_lem [] (suc n) i b h l = let z : (b i == 0) ≡ true = ground arith in rw z (refl, refl)
copy_line_lem (c ∷ cs) (suc n) i b h l =
    let go : (b i == 0) ≡ false = ground arith in
    let (outs, count) =
      copy_line_lem cs n (i + 1) (update b i 0) (Holds-update b (i + 1) i 0 cs (omega arith) h.2)
        (omega arith) in
    rw (go, outs, count, h.0) (refl, omega arith)

-- What is typed at the end of the buffer's characters, with zeros behind.
record Open (s : Terminals) (typed : List ℕ) : Type 0 where
  size : (displayed s).keyboard_buffer_size ≡ length typed
  held : Holds (displayed s).keyboard_buffer 0 typed
  zeros : (i : ℕ) → length typed ≤ i → (displayed s).keyboard_buffer i ≡ 0

Holds-snoc :
    (b : ℕ → ℕ) (i c : ℕ) (cs : List ℕ)
    → Holds b i cs
    → c ≢ 0
    → b (i + length cs + 1) ≡ 0
    → Holds (update b (i + length cs) c) i (cs ++ (c ∷ []))
Holds-snoc b i c [] h ne z = (ground arith, ne, ground arith)
Holds-snoc b i c (d ∷ cs) h ne z =
    let place : (i + 1) + length cs ≡ i + suc (length cs) = omega arith in
    let below : (i == (i + suc (length cs))) ≡ false = ground arith in
    let rest = Holds-snoc b (i + 1) c cs h.2 ne (ap b (omega arith) ∙ z) in
    (rw below h.0, h.1, subst (λ n. Holds (update b n c) (i + 1) (cs ++ (c ∷ []))) place rest)

added-Open :
    (c : ℕ) (s : Terminals) (typed : List ℕ)
    → Open s typed
    → c ≢ 0
    → length typed < 126
    → Open (terminal_buf_add c s) (typed ++ (c ∷ []))
added-Open c s typed o ne room = record {
  size = grows ∙ (rw o.size (omega (arith, length-append typed (c ∷ []))));
  held =
      subst (λ f. Holds f 0 (typed ++ (c ∷ []))) (sym stored)
        (Holds-snoc b 0 c typed o.held ne (o.zeros _ (omega arith)));
  zeros = λ i le.
      ap (λ (f : ℕ → ℕ). f i) stored ∙ beyond i (omega (arith, le, length-append typed (c ∷ [])));
}
  where
    room' : (displayed s).keyboard_buffer_size < 126
    room' = rw o.size room

    grows :
        (displayed (terminal_buf_add c s)).keyboard_buffer_size
        ≡ (displayed s).keyboard_buffer_size + 1
    grows = unfold terminal_buf_add in ground arith

    b : ℕ → ℕ
    b = (displayed s).keyboard_buffer

    at_size :
        (displayed (terminal_buf_add c s)).keyboard_buffer
        ≡ update b (displayed s).keyboard_buffer_size c
    at_size = unfold terminal_buf_add in ground arith

    stored : (displayed (terminal_buf_add c s)).keyboard_buffer ≡ update b (0 + length typed) c
    stored =
        let end : (displayed s).keyboard_buffer_size ≡ 0 + length typed = omega (arith, o.size) in
        at_size ∙ ap (λ n. update b n c) end

    beyond : (i : ℕ) → length typed < i → update b (0 + length typed) c i ≡ 0
    beyond i lt = let old = o.zeros i (omega arith) in ground arith

allowed :
    (c : ℕ) (s : Terminals)
    → (displayed s).keyboard_buffer_size < 126
    → (displayed (terminal_buf_add c s)).allow_terminal_read
      ≡ (if c == 10 then 1 else (displayed s).allow_terminal_read)
unfolding terminal_buf_add
allowed c s room = ground arith

-- The end of the line is typed, and the read takes the line.
end_of_line :
    (nbytes : ℕ) (s : Terminals) (typed : List ℕ)
    → Open s typed
    → (displayed s).allow_terminal_read ≡ 0
    → length typed < 126
    → length typed + 1 < nbytes
    → (line : Copied) × (s' : Terminals) × (terminal_read nbytes (char 10 ∷ []) s ≡ some (line, s'))
      × (line.out ≡ (typed ++ (10 ∷ [])) ++ (0 ∷ []))
      × (line.numbytes ≡ length typed + 1)
      × ((displayed s').keyboard_buffer_size ≡ 0)
      × ((displayed s').allow_terminal_read ≡ 0)
end_of_line nbytes s typed o waits room fits =
    let entered = terminal_buf_add 10 s in
    let full = added-Open 10 s typed o (ground arith) room in
    let opened : (displayed entered).allow_terminal_read ≡ 1 =
      allowed 10 s (omega (arith, o.size)) in
    let grows = length-append typed (10 ∷ []) in
    let (outs, count) =
      copy_line_lem (typed ++ (10 ∷ [])) nbytes 0 (displayed entered).keyboard_buffer full.held
        (omega (arith, grows)) in
    (
      (take_line nbytes entered).0,
      (take_line nbytes entered).1,
      (let spins : ((displayed s).allow_terminal_read == 0) ≡ true = ground arith in
          let goes : ((displayed entered).allow_terminal_read == 0) ≡ false = ground arith in
          unfold terminal_read key_event in rw (spins, goes) refl),
      unfold take_line in outs,
      unfold take_line in count ∙ grows,
      unfold take_line in ground arith,
      unfold take_line in ground arith,
    )

waits_on :
    (nbytes c : ℕ) (keys : List Key) (s : Terminals)
    → (displayed s).allow_terminal_read ≡ 0
    → terminal_read nbytes (char c ∷ keys) s ≡ terminal_read nbytes keys (terminal_buf_add c s)
waits_on nbytes c keys s waits =
    let spins : ((displayed s).allow_terminal_read == 0) ≡ true = ground arith in
    unfold terminal_read key_event in rw spins refl

typed_on :
    (nbytes : ℕ) (cs : List ℕ) (s : Terminals) (typed : List ℕ)
    → Open s typed
    → (displayed s).allow_terminal_read ≡ 0
    → All IsLineChar cs
    → length typed + length cs < 126
    → length typed + length cs + 1 < nbytes
    → (line : Copied) × (s' : Terminals) × (terminal_read nbytes (typing (cs ++ (10 ∷ []))) s
        ≡ some (line, s'))
      × (line.out ≡ ((typed ++ cs) ++ (10 ∷ [])) ++ (0 ∷ []))
      × (line.numbytes ≡ length typed + length cs + 1)
      × ((displayed s').keyboard_buffer_size ≡ 0)
      × ((displayed s').allow_terminal_read ≡ 0)
typed_on nbytes [] s typed o waits ok room fits =
    let (line, s', reads, outs, count, size, allow) =
      end_of_line nbytes s typed o waits (omega arith) (omega arith) in
    (line, s', reads, rw (append-nil typed) outs, count ∙ omega arith, size, allow)
typed_on nbytes (c ∷ cs) s typed o waits ok room fits =
    let still : (displayed (terminal_buf_add c s)).allow_terminal_read ≡ 0 =
      allowed c s (omega (arith, o.size)) ∙ ground arith in
    let grows = length-append typed (c ∷ []) in
    let (line, s', reads, outs, count, size, allow) =
      typed_on nbytes cs (terminal_buf_add c s) (typed ++ (c ∷ []))
        (added-Open c s typed o ok.0.1 (omega arith)) still ok.1 (omega (arith, grows))
        (omega (arith, grows)) in
    (
      line,
      s',
      waits_on nbytes c (typing (cs ++ (10 ∷ []))) s waits ∙ reads,
      outs ∙ ap (λ l. (l ++ (10 ∷ [])) ++ (0 ∷ [])) (append_assoc typed (c ∷ []) cs),
      count ∙ omega (arith, grows),
      size,
      allow,
    )

-- A read that waits on an empty line: up to 125 characters are typed, none of them Enter or 0, and
-- then Enter. When the caller gives room for them and one byte more, it gets exactly these
-- characters, Enter and a 0, and the number returned counts the characters and Enter. The next line
-- starts empty, and the next read waits.
pub terminal_read_lem :
    (nbytes : ℕ) (cs : List ℕ) (s : Terminals)
    → (displayed s).keyboard_buffer_size ≡ 0
    → ((i : ℕ) → (displayed s).keyboard_buffer i ≡ 0)
    → (displayed s).allow_terminal_read ≡ 0
    → All IsLineChar cs
    → length cs < 126
    → length cs + 1 < nbytes
    → (line : Copied) × (s' : Terminals) × (terminal_read nbytes (typing (cs ++ (10 ∷ []))) s
        ≡ some (line, s'))
      × (line.out ≡ (cs ++ (10 ∷ [])) ++ (0 ∷ []))
      × (line.numbytes ≡ length cs + 1)
      × ((displayed s').keyboard_buffer_size ≡ 0)
      × ((displayed s').allow_terminal_read ≡ 0)
terminal_read_lem nbytes cs s size zeros waits ok room fits =
    let none_typed : Open s [] = (record {
      size = size;
      held = zeros 0;
      zeros = λ i le. zeros i;
    }) in
    let (line, s', reads, outs, count, left, closed) =
      typed_on nbytes cs s [] none_typed waits ok (omega arith) (omega arith) in
    (line, s', reads, outs, count ∙ omega arith, left, closed)
