-- ===== src/World.antt =====
-- What the comment code takes from its surroundings: the process-wide counter of one-shot event ids
-- (eidCounter of internal/core/events.go) and the clock. The clock is a function from the number of
-- readings made so far, so that two readings may differ; nothing is assumed of it. Other
-- goroutines draw from the counter too: `others n` ids come between the n-th draw here and the one before.
use octo_docs_html_fork.Prelude.{ℕ, ◌+◌, ◌%◌, ◌^◌, String}

pub record World : Type 0 where
  pub counter : ℕ
  pub drawn : ℕ
  pub others : ℕ → ℕ
  pub reads : ℕ
  pub micros : ℕ → ℕ
  pub iso : ℕ → String

abbrev pub M {ℓ} : Type ℓ → Type ℓ
M A = World → A × World

module _ {ℓ κ} {A : Type ℓ} {B : Type κ} where
  infixl 5 ◌>>=◌ ◌>>◌
  abbrev pub ◌>>=◌ : M A → (A → M B) → M B
  ◌>>=◌ m f w = let (a, w') = m w in f a w'

  abbrev pub ◌>>◌ : M A → M B → M B
  ◌>>◌ m k w = let (a, w') = m w in k w'

abbrev pub pure {ℓ} : {A : Type ℓ} → A → M A
pure a w = (a, w)

-- nowISO()
unfoldable pub now_iso : M String
now_iso w = (w.iso w.reads, record w { reads = w.reads + 1 })

-- time.Now().UnixMicro()
unfoldable pub unix_micro : M ℕ
unix_micro w = (w.micros w.reads, record w { reads = w.reads + 1 })

-- eidCounter.Add(1)-1 on a uint64
unfoldable pub next_nonce : M ℕ
next_nonce w =
    let next = w.counter + w.others w.drawn in
    (next % 2 ^ 64, record w { counter = (next + 1) % 2 ^ 64; drawn = w.drawn + 1 })
