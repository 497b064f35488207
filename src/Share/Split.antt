-- ===== src/Share/Split.antt =====
-- Splitting loses nothing: the two parts add up to the value, modulo `Int_Modulus`.
use prio_plus.Base.{ℕ, ◌+◌, ◌*◌, Cong, ◌▸◌, cong_of_eq, cong_sym, mul-Cong, arith}
use prio_plus.Field.{Field, sub_mod-Cong, mul_mod-Cong}
use prio_plus.Share.{split_share, new_beaver_triple, beaver_triple_shares, BeaverTripleShare}

module _ (K : Field) where
  open K use {modulus}

  -- The two parts that `SplitShare` makes of a value, as one statement about them.
  abbrev pub AreShares : ℕ → ℕ × ℕ → Type 0
  AreShares val s = Cong modulus (s.0 + s.1) val

  pub split_share-AreShares : (val draw : ℕ) → AreShares val (split_share K val draw)
  unfolding split_share
  split_share-AreShares val draw = cong_of_eq modulus (omega arith) ▸ sub_mod-Cong K val draw

  -- The shares of a multiplication triple.
  abbrev pub AreTripleShares : BeaverTripleShare × BeaverTripleShare → Type 0
  AreTripleShares t =
      Cong modulus ((t.0.share_a + t.1.share_a) * (t.0.share_b + t.1.share_b))
        (t.0.share_c + t.1.share_c)

  -- The shares that a client makes of a new Beaver triple are shares of a multiplication triple.
  pub beaver_triple_shares-AreTripleShares :
      (draw_a draw_b s_a s_b s_c : ℕ)
      → AreTripleShares (beaver_triple_shares K (new_beaver_triple K draw_a draw_b) s_a s_b s_c)
  unfolding beaver_triple_shares new_beaver_triple
  beaver_triple_shares-AreTripleShares draw_a draw_b s_a s_b s_c =
      mul-Cong (split_share-AreShares draw_a s_a) (split_share-AreShares draw_b s_b)
      ▸ cong_sym (mul_mod-Cong K draw_a draw_b)
      ▸ cong_sym (split_share-AreShares _ s_c)
