-- ===== src/Effect.antt =====
-- `anyhow::Result` code that reads and writes: the errors of the daemon, the state that such code
-- passes along, and the byte stream that it is generic over (`AsyncRead + AsyncWrite`).
use aabox.Common.{ℕ, Result, ok, err, Bytes}

-- One constructor for each kind of failure; the number is what the message shows. `no_fuel` is the
-- model's own: a loop that was given too few rounds.
pub data Error : Type 0 where
  io tls decode rejected : ℕ → Error
  end_of_file no_fuel : Error
  too_short wrong_channel unexpected_message no_total_length : ℕ → Error

-- Code that may fail, over a state `W` that keeps what was done before the failure.
abbrev pub Eff : Type 0 → Type 0 → Type 0
Eff W A = W → Result Error A × W

abbrev pub next {ℓ} :
    {W A : Type 0} {B : Type ℓ} → Result Error A × W → (A → W → B) → (Error → W → B) → B
next (ok a, w) f g = f a w
next (err e, w) f g = g e w

infixl 5 ◌>>=◌ ◌>>◌
abbrev pub ◌>>=◌ : {W A B : Type 0} → Eff W A → (A → Eff W B) → Eff W B
◌>>=◌ m f w = next (m w) f (λ e w'. (err e, w'))

abbrev pub ◌>>◌ : {W B : Type 0} → Eff W (Unit {0}) → Eff W B → Eff W B
m >> k = m >>= λ _. k

abbrev pub return : {W A : Type 0} → A → Eff W A
return a w = (ok a, w)

abbrev pub fail : {W A : Type 0} → Error → Eff W A
fail e w = (err e, w)

-- A value that does not touch the state.
abbrev pub lift : {W A : Type 0} → Result Error A → Eff W A
lift r w = (r, w)

-- The stream: `read` returns what one call delivers, at most `cap` bytes, and nothing at the end of
-- the stream; `read_exact` and `write_all` go on until all is read or written.
pub record Transport (S : Type 0) : Type 0 where
  pub read : (cap : ℕ) → Eff S Bytes
  pub read_exact : (n : ℕ) → Eff S Bytes
  pub write_all : Bytes → Eff S (Unit {0})
