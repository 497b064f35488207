-- ===== src/Circuit/Sharing.antt =====
-- A circuit over shares: what the two servers import adds up, wire by wire, to what the client
-- evaluated.
use prio_plus.Base.{
  ℕ, suc, ◌+◌, ◌<◌, ◌≡◌, refl, ◌∙◌, true, List, [], ◌∷◌, if◌then◌else◌, arith, update, ◌==◌,
  Bool-cases, update_self, update_ne, inl, inr, Cong, ◌▸◌, cong_of_eq, cong_sym, cong_refl,
  add-Cong, mul-Cong, mod-Cong,
}
use mathlib.Core.Path.{ap₂}
use prio_plus.Field.{Field, add_mod, add_mod-Cong, mul_mod-Cong}
use prio_plus.Share.{ClientPacket, split_share}
use prio_plus.Share.Split.{split_share-AreShares}
use prio_plus.Circuit.{
  Gate, input, add, add_const, mul, mul_const, Circuit, Wires, is_mul, is_input, eval_loop,
  eval_gate, eval, import_gate, import_loop, import_wires, get_mul_shares, get_mul_shares_loop,
  no_wires,
}
use prio_plus.Circuit.Wires.{mul_places, IsListed, eval_loop_keeps}

module _ (K : Field) where
  open K use {modulus, modulus_pos}

  -- Two arrays that add up to a third, modulo `Int_Modulus`.
  abbrev pub AreArrayShares : (a0 a1 a : ℕ → ℕ) → Type 0
  AreArrayShares a0 a1 a = (j : ℕ) → Cong modulus (a0 j + a1 j) (a j)

  pub update-AreArrayShares :
      (a0 a1 a : ℕ → ℕ) (i v0 v1 v : ℕ)
      → AreArrayShares a0 a1 a
      → Cong modulus (v0 + v1) v
      → AreArrayShares (update a0 i v0) (update a1 i v1) (update a i v)
  update-AreArrayShares a0 a1 a i v0 v1 v s h j = elim (Bool-cases (i == j)) [
    | inl e ↦ rw e h
    | inr e ↦ rw e (s j)
  ]

  regroup : (a b c d : ℕ) → a + b + (c + d) ≡ a + c + (b + d)
  regroup a b c d = omega arith

  import_gate-Cong :
      (g : Gate) (p0 p1 : ClientPacket) (m n : ℕ) (in0 in1 inps : ℕ → ℕ) (w0 w1 w : Wires)
      → AreArrayShares in0 in1 inps
      → AreArrayShares w0 w1 w
      → (is_mul g ≡ true
          → Cong modulus (p0.mul_shares m + p1.mul_shares m) (eval_gate K g n inps w))
      → Cong modulus
          (import_gate K g p0 0 m n in0 w0 + import_gate K g p1 1 m n in1 w1)
          (eval_gate K g n inps w)
  unfolding import_gate eval_gate add_mod
  import_gate-Cong input p0 p1 m n in0 in1 inps w0 w1 w hi hw hm = hi n
  import_gate-Cong (add l r) p0 p1 m n in0 in1 inps w0 w1 w hi hw hm =
      add-Cong (add_mod-Cong K (w0 l) (w0 r)) (add_mod-Cong K (w1 l) (w1 r))
      ▸ cong_of_eq modulus (regroup (w0 l) (w0 r) (w1 l) (w1 r))
      ▸ add-Cong (hw l) (hw r)
      ▸ cong_sym (add_mod-Cong K (w l) (w r))
  import_gate-Cong (mul l r) p0 p1 m n in0 in1 inps w0 w1 w hi hw hm = hm refl
  import_gate-Cong (add_const l c) p0 p1 m n in0 in1 inps w0 w1 w hi hw hm =
      add-Cong (add_mod-Cong K (w0 l) c)
        (cong_of_eq modulus (K.fmpz_mod_lem (w1 l) modulus modulus_pos) ▸ mod-Cong modulus (w1 l))
      ▸ cong_of_eq modulus (omega arith)
      ▸ add-Cong (hw l) (cong_refl modulus c)
      ▸ cong_sym (add_mod-Cong K (w l) c)
  import_gate-Cong (mul_const l c) p0 p1 m n in0 in1 inps w0 w1 w hi hw hm =
      add-Cong (mul_mod-Cong K (w0 l) c) (mul_mod-Cong K (w1 l) c)
      ▸ cong_of_eq modulus (omega arith)
      ▸ mul-Cong (hw l) (cong_refl modulus c)
      ▸ cong_sym (mul_mod-Cong K (w l) c)

  -- The packets share the wires `w` of the gates at the places `ps`, from index `m` on.
  abbrev pub SharesAt : List ℕ → ℕ → (s0 s1 w : ℕ → ℕ) → Type 0
  SharesAt [] m s0 s1 w = Unit {0}
  SharesAt (x ∷ xs) m s0 s1 w = Cong modulus (s0 m + s1 m) (w x) × SharesAt xs (suc m) s0 s1 w

  mul_share_here :
      (g : Gate) (gs : List Gate) (i m : ℕ) (s0 s1 w : ℕ → ℕ)
      → SharesAt (mul_places (g ∷ gs) i) m s0 s1 w
      → is_mul g ≡ true
      → Cong modulus (s0 m + s1 m) (w i)
  mul_share_here g gs i m s0 s1 w h e = (rw e at h).0

  mul_share_rest :
      (g : Gate) (gs : List Gate) (i m : ℕ) (s0 s1 w : ℕ → ℕ)
      → SharesAt (mul_places (g ∷ gs) i) m s0 s1 w
      → SharesAt (mul_places gs (suc i)) (if is_mul g then suc m else m) s0 s1 w
  mul_share_rest g gs i m s0 s1 w h = elim (Bool-cases (is_mul g)) [
    | inl e ↦ rw e (rw e at h).1
    | inr e ↦ rw e (rw e at h)
  ]

  import_loop-AreArrayShares :
      (gs : List Gate) (i m n : ℕ) (p0 p1 : ClientPacket) (in0 in1 inps : ℕ → ℕ) (w0 w1 w : Wires)
      → AreArrayShares in0 in1 inps
      → AreArrayShares w0 w1 w
      → SharesAt (mul_places gs i) m p0.mul_shares p1.mul_shares (eval_loop K gs i n inps w)
      → AreArrayShares
          (import_loop K gs i p0 0 m n in0 w0)
          (import_loop K gs i p1 1 m n in1 w1)
          (eval_loop K gs i n inps w)
  unfolding import_loop eval_loop
  import_loop-AreArrayShares [] i m n p0 p1 in0 in1 inps w0 w1 w hi hw hm = hw
  import_loop-AreArrayShares (g ∷ gs) i m n p0 p1 in0 in1 inps w0 w1 w hi hw hm =
      let v = eval_gate K g n inps w in
      let n' = if is_input g then suc n else n in
      let written : eval_loop K gs (suc i) n' inps (update w i v) i ≡ v =
        eval_loop_keeps K gs (suc i) n' inps (update w i v) i (omega arith) ∙ update_self w i v in
      let here =
        import_gate-Cong g p0 p1 m n in0 in1 inps w0 w1 w hi hw
          λ e. mul_share_here g gs i m _ _ _ hm e ▸ cong_of_eq modulus written in
      import_loop-AreArrayShares gs (suc i) (if is_mul g then suc m else m) n' p0 p1 in0 in1 inps _
        _ (update w i v) hi (update-AreArrayShares w0 w1 w i _ _ v hw here)
        (mul_share_rest g gs i m _ _ _ hm)

  get_mul_shares_keeps :
      (ps : List ℕ) (i : ℕ) (draws : ℕ → ℕ) (w : Wires) (s0 s1 : ℕ → ℕ) (j : ℕ)
      → j < i
      → (let s = get_mul_shares_loop K ps i draws w (s0, s1) in (s.0 j ≡ s0 j) × (s.1 j ≡ s1 j))
  unfolding get_mul_shares_loop
  get_mul_shares_keeps [] i draws w s0 s1 j h = (refl, refl)
  get_mul_shares_keeps (x ∷ xs) i draws w s0 s1 j h =
      let t = split_share K (w x) (draws i) in
      let ih =
        get_mul_shares_keeps xs (suc i) draws w (update s0 i t.0) (update s1 i t.1) j
          (omega arith) in
      (ih.0 ∙ update_ne s0 i t.0 j (omega arith), ih.1 ∙ update_ne s1 i t.1 j (omega arith))

  get_mul_shares-SharesAt :
      (ps : List ℕ) (i : ℕ) (draws : ℕ → ℕ) (w : Wires) (s0 s1 : ℕ → ℕ)
      → (let s = get_mul_shares_loop K ps i draws w (s0, s1) in SharesAt ps i s.0 s.1 w)
  unfolding get_mul_shares_loop
  get_mul_shares-SharesAt [] i draws w s0 s1 = tt
  get_mul_shares-SharesAt (x ∷ xs) i draws w s0 s1 =
      let t = split_share K (w x) (draws i) in
      let s0' = update s0 i t.0 in
      let s1' = update s1 i t.1 in
      let kept = get_mul_shares_keeps xs (suc i) draws w s0' s1' i (omega arith) in
      (
        cong_of_eq modulus (ap₂ ◌+◌ (kept.0 ∙ update_self s0 i t.0) (kept.1 ∙ update_self s1 i t.1))
            ▸ split_share-AreShares K (w x) (draws i),
        get_mul_shares-SharesAt xs (suc i) draws w s0' s1',
      )

  -- For a circuit built by `addGate` and any shares of the inputs: if the two packets carry the
  -- shares that `GetMulShares` makes of the wires of `Eval`, then the wires that servers 0 and 1
  -- import add up to those of `Eval`, at every gate.
  pub import_wires-eval :
      (c : Circuit) (draws in0 in1 inps s0 s1 : ℕ → ℕ) (p0 p1 : ClientPacket)
      → IsListed c
      → AreArrayShares in0 in1 inps
      → (let s = get_mul_shares K c draws (eval K c inps).1 (s0, s1) in
          (p0.mul_shares ≡ s.0) × (p1.mul_shares ≡ s.1))
      → AreArrayShares (import_wires K c p0 0 in0) (import_wires K c p1 1 in1) (eval K c inps).1
  unfolding import_wires eval get_mul_shares
  import_wires-eval c draws in0 in1 inps s0 s1 p0 p1 listed hi packed =
      import_loop-AreArrayShares c.gates 0 0 0 p0 p1 in0 in1 inps no_wires no_wires no_wires hi
        (λ j. cong_of_eq modulus refl)
        (rw (packed.0, packed.1, ← listed)
          (get_mul_shares-SharesAt c.mul_gates 0 draws (eval_loop K c.gates 0 0 inps no_wires) s0
            s1))
