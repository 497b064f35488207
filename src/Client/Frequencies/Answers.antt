-- ===== src/Client/Frequencies/Answers.antt =====
-- The frequencies that honest clients expect are those that the servers answer with.
use prio_plus.Base.{ℕ, List}
use prio_plus.Field.{Field}
use prio_plus.Server.Collect.{HaveOwnKeys}
use prio_plus.Client.{FreqRequest, freq_helper}

-- The keys that the clients draw are different.
abbrev pub DrawOwnKeys : (n : ℕ) → List FreqRequest → Type 0
DrawOwnKeys n rs = HaveOwnKeys (freq_helper n rs (λ j. 0)).freqshare0
