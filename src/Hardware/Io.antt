-- ===== src/Hardware/Io.antt =====
-- io/io.c: the ports. The hardware is a parameter: `device n` is what it answers to the read of
-- number `n`. All that is done to the ports is kept, the latest first.
use mathlib.Core.Path.{◌≡◌}
use vireo_kernel.Prelude.{ℕ, zero, suc, ◌+◌, List, [], ◌∷◌, u8, u16, u32, Run, done, stop, fault}
use vireo_kernel.Prelude

pub data Event : Type 0 where
  out_byte : ℕ → ℕ → Event
  out_word : ℕ → ℕ → Event
  out_long : ℕ → ℕ → Event
  in_byte : ℕ → Event
  in_word : ℕ → Event
  in_long : ℕ → Event
  io_wait : Event
  pit_init : Event

pub record Ports : Type 0 where
  pub device : ℕ → ℕ
  pub reads : ℕ
  pub trace : List Event

abbrev pub Io : Type 0 → Type 0
Io A = Ports → Run (A × Ports)

abbrev pub pure : {A : Type 0} → A → Io A
pure a p = done (a, p)

infixl 5 ◌>>=◌ ◌>>◌
abbrev pub ◌>>=◌ : {A B : Type 0} → Io A → (A → Io B) → Io B
◌>>=◌ m f p = Prelude.◌>>=◌ (m p) (λ r. f r.0 r.1)

abbrev pub ◌>>◌ : {B : Type 0} → Io (Unit {0}) → Io B → Io B
m >> k = m >>= λ _. k

pub >>=-at_done :
    {A B : Type 0} (m : Io A) (f : A → Io B) (p p' : Ports) (a : A)
    → m p ≡ done (a, p')
    → (m >>= f) p ≡ f a p'
>>=-at_done m f p p' a h = rw h

pub >>=-at_fault :
    {A B : Type 0} (m : Io A) (f : A → Io B) (p : Ports) → m p ≡ fault → (m >>= f) p ≡ fault
>>=-at_fault m f p h = rw h

-- A step that only leaves its mark.
abbrev pub emit : Event → Io (Unit {0})
emit e p = done (tt, record p { trace = e ∷ p.trace })

abbrev pub answer : (ℕ → ℕ) → Event → Io ℕ
answer cut e p =
    done (cut (p.device p.reads), record p { reads = p.reads + 1; trace = e ∷ p.trace })

abbrev pub inb : ℕ → Io ℕ
inb port = answer u8 (in_byte port)

abbrev pub inw : ℕ → Io ℕ
inw port = answer u16 (in_word port)

abbrev pub inl : ℕ → Io ℕ
inl port = answer u32 (in_long port)

abbrev pub outb : ℕ → ℕ → Io (Unit {0})
outb port v = emit (out_byte (u16 port) (u8 v))

abbrev pub outw : ℕ → ℕ → Io (Unit {0})
outw port v = emit (out_word (u16 port) (u16 v))

abbrev pub outl : ℕ → ℕ → Io (Unit {0})
outl port v = emit (out_long (u16 port) (u32 v))

-- The loop of `insw` at index `i`: the buffer is a list of 16-bit words.
unfoldable pub insw_from : ℕ → ℕ → List ℕ → ℕ → Io (List ℕ)
insw_from port zero buffer i = pure buffer
insw_from port (suc left) buffer i = do
  value ← inw port
  buffer' ← λ p. Prelude.◌>>=◌ (Prelude.store buffer i value) (λ b. done (b, p))
  insw_from port left buffer' (i + 1)

-- `size` words are read into the buffer from index `i` on.
unfoldable pub insw : ℕ → ℕ → List ℕ → ℕ → Io (List ℕ)
insw port size buffer i = insw_from port size buffer i

unfoldable pub outsw : ℕ → ℕ → List ℕ → ℕ → Io (Unit {0})
outsw port zero words i = pure tt
outsw port (suc left) words i = do
  v ← λ p. Prelude.◌>>=◌ (Prelude.load words i) (λ x. done (x, p))
  outw port v
  outsw port left words (i + 1)
