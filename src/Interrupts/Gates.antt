-- ===== src/Interrupts/Gates.antt =====
-- `init_idt` of student-distrib/interrupt_table.c: the gate of every vector.
use linux_os.Prelude.{
  ℕ, zero, suc, ◌+◌, ◌≡◌, ◌≢◌, ◌≤◌, ◌<◌, ◌∙◌, ap, sym, refl, inl, inr, List, [], ◌∷◌, Option, some,
  ◌==◌, if◌then◌else◌, arith, Bool-cases, update, false,
}
use linux_os.Strings.Compare.{All}
use linux_os.Interrupts.{
  Handler, Gate, init_gate, init_gates, set_idt_entry, handled, set_entries, init_idt, kernel_cs,
  vector_syscall, num_vec, vector_pit, vector_keyboard, vector_rtc,
}

init_gates_lem :
    (rounds i : ℕ) (idt : ℕ → Gate) (j : ℕ)
    → (i ≤ j → j < i + rounds → init_gates rounds i idt j ≡ init_gate j (idt j))
      × (j < i → init_gates rounds i idt j ≡ idt j)
unfolding init_gates
init_gates_lem zero i idt j = (λ le lt. absurd (omega arith), λ lt. refl)
init_gates_lem (suc rounds) i idt j =
    let (inside, before) = init_gates_lem rounds (i + 1) (update idt i (init_gate i (idt i))) j in
    (
      λ le lt. elim (Bool-cases (j == i)) [
        | inl here ↦
            let same : j ≡ i = ground arith in
            before (omega arith) ∙ rw here (ap (λ t. init_gate t (idt t)) (sym same))
        | inr away ↦ inside (ground arith) (omega arith) ∙ rw away refl
      ],
      λ lt. (let away : (j == i) ≡ false = ground arith in before (omega arith) ∙ rw away refl),
    )

-- The offset that the entries leave at a vector.
set_for : List (ℕ × Handler) → ℕ → Option Handler → Option Handler
set_for [] i last = last
set_for ((j, handler) ∷ entries) i last = set_for entries i (if i == j then some handler else last)

set_entries_lem :
    (entries : List (ℕ × Handler)) (idt : ℕ → Gate) (i : ℕ)
    → set_entries entries idt i ≡ record (idt i) { offset = set_for entries i (idt i).offset }
unfolding set_entries set_for
set_entries_lem [] idt i = refl
set_entries_lem ((j, handler) ∷ entries) idt i =
    let rest = set_entries_lem entries (set_idt_entry j handler idt) i in
    elim (Bool-cases (i == j)) [
      | inl here ↦
          let same : j ≡ i = ground arith in
          rest
          ∙ rw here (ap (λ t. record (idt t) { offset = set_for entries i (some handler) }) same)
      | inr away ↦ rest ∙ rw away refl
    ]

init_idt_gate :
    (idt : ℕ → Gate) (i : ℕ)
    → i < num_vec
    → init_idt idt i ≡ record (init_gate i (idt i)) { offset = set_for handled i (idt i).offset }
unfolding init_idt
init_idt_gate idt i lt =
    set_entries_lem handled (init_gates num_vec 0 idt) i
    ∙ rw ((init_gates_lem num_vec 0 idt i).0 (omega arith) lt) (unfold init_gate in refl)

-- The gate of the vector `i` in the kernel's code segment: programs may call only the vector of the
-- system calls, and the vectors below 32 are trap gates, the others interrupt gates.
pub record IsGate (i : ℕ) (g : Gate) : Type 0 where
  pub segment : g.seg_selector ≡ kernel_cs
  pub present : g.present ≡ 1
  pub wide : g.size ≡ 1
  pub user : g.dpl ≡ 3 → i ≡ vector_syscall
  pub syscall : i ≡ vector_syscall → g.dpl ≡ 3
  pub kernel_only : i ≢ vector_syscall → g.dpl ≡ 0
  pub trap : i < 32 → g.reserved3 ≡ 1
  pub interrupt : 32 ≤ i → g.reserved3 ≡ 0

init_gate-IsGate :
    (i : ℕ) (g : Gate) (o : Option Handler) → IsGate i (record (init_gate i g) { offset = o })
unfolding init_gate
init_gate-IsGate i g o = record {
  segment = refl;
  present = refl;
  wide = refl;
  user = λ e. ground arith;
  syscall = λ e. ground arith;
  kernel_only = λ ne. ground arith;
  trap = λ lt. ground arith;
  interrupt = λ le. ground arith;
}

-- Whatever the table held, `init_idt` makes every one of the 256 gates present, 32 bits wide and in
-- the kernel's segment. Exactly the vector of the system calls can be called from user code, and
-- exactly the vectors below 32 are trap gates.
pub init_idt-IsGate : (idt : ℕ → Gate) (i : ℕ) → i < num_vec → IsGate i (init_idt idt i)
init_idt-IsGate idt i lt = rw (init_idt_gate idt i lt) (init_gate-IsGate i (idt i) _)

init_idt_offset :
    (idt : ℕ → Gate) (i : ℕ)
    → i < num_vec
    → (init_idt idt i).offset ≡ set_for handled i (idt i).offset
init_idt_offset idt i lt = ap (λ (g : Gate). g.offset) (init_idt_gate idt i lt)

set_for-away :
    (entries : List (ℕ × Handler)) (i : ℕ) (last : Option Handler)
    → All (λ e. i ≢ e.0) entries
    → set_for entries i last ≡ last
unfolding set_for
set_for-away [] i last away = refl
set_for-away ((j, handler) ∷ entries) i last (ne, away) =
    let other : (i == j) ≡ false = ground arith in rw other (set_for-away entries i last away)

-- The gate of a listed vector gets the handler that `init_idt` names for it, whatever the other
-- entries are; the gates of the vectors that are not listed keep the offset that they had.
pub init_idt_handlers :
    (idt : ℕ → Gate)
    → All (λ e. (init_idt idt e.0).offset ≡ some e.1) handled
      × ((i : ℕ)
          → i < num_vec
          → All (λ e. i ≢ e.0) handled
          → (init_idt idt i).offset ≡ (idt i).offset)
unfolding set_for
init_idt_handlers idt =
    (listed, λ i lt away. (init_idt_offset idt i lt ∙ set_for-away handled i _ away))
  where
    at : (i : ℕ) → i < num_vec → (init_idt idt i).offset ≡ set_for handled i (idt i).offset
    at = init_idt_offset idt

    listed : All (λ e. (init_idt idt e.0).offset ≡ some e.1) handled
    listed =
        ((
          at 0x00 (omega arith),
          (
            at 0x01 (omega arith),
            (
              at 0x02 (omega arith),
              (
                at 0x03 (omega arith),
                (
                  at 0x04 (omega arith),
                  (
                    at 0x05 (omega arith),
                    (
                      at 0x06 (omega arith),
                      (
                        at 0x07 (omega arith),
                        (
                          at 0x08 (omega arith),
                          (
                            at 0x09 (omega arith),
                            (
                              at 0x0A (omega arith),
                              (
                                at 0x0B (omega arith),
                                (
                                  at 0x0C (omega arith),
                                  (
                                    at 0x0D (omega arith),
                                    (
                                      at 0x0E (omega arith),
                                      (
                                        at 0x10 (omega arith),
                                        (
                                          at 0x11 (omega arith),
                                          (
                                            at 0x12 (omega arith),
                                            (
                                              at 0x13 (omega arith),
                                              (
                                                at vector_pit (omega arith),
                                                (
                                                  at vector_keyboard (omega arith),
                                                  (
                                                    at vector_rtc (omega arith),
                                                    (at vector_syscall (omega arith), tt),
                                                  ),
                                                ),
                                              ),
                                            ),
                                          ),
                                        ),
                                      ),
                                    ),
                                  ),
                                ),
                              ),
                            ),
                          ),
                        ),
                      ),
                    ),
                  ),
                ),
              ),
            ),
          ),
        ))
