-- ===== src/Lock/Write/Prefix.antt =====
-- Which locks `dbms_remove_direct_locks_w_prefix` (limestone/dbms_locks.c, lines 385-412) removes.
use limestone.Prelude.{
  ℕ, ◌≡◌, ◌≢◌, refl, sym, ◌∙◌, ◌↔◌, true, false, not, ◌&&◌, [], ◌∷◌, ◌++◌, Bytes, ◌==◌, In, In-keep,
  keep-In, Bool-cases, inl, inr, arith,
}
use limestone.Store.{Db, LockRow, quiet, ok, update, delete_locks}
use limestone.Lock.Write.{some_suffix, no_bytes, this_byte, like, dbms_remove_direct_locks_w_prefix}

-- Bytes that stand for themselves in a pattern of LIKE.
abbrev pub IsLiteral : Bytes → Type 0
IsLiteral [] = Unit
IsLiteral (c ∷ s) = (c ≢ b'%') × (c ≢ b'_') × (c ≢ 92) × IsLiteral s

some_suffix-no_bytes : (s : Bytes) → some_suffix no_bytes s ≡ true
unfolding some_suffix
some_suffix-no_bytes [] = refl
some_suffix-no_bytes (c ∷ s) = some_suffix-no_bytes s

like_step :
    (p q : ℕ) (ps s : Bytes)
    → p ≢ b'%'
    → p ≢ b'_'
    → p ≢ 92
    → like (p ∷ q ∷ ps) s ≡ this_byte p (like (q ∷ ps)) s
unfolding like
like_step p q ps s a b c =
    let not_any : (p == b'%') ≡ false = ground (arith, a) in
    let not_one : (p == b'_') ≡ false = ground (arith, b) in
    let not_escape : (p == 92) ≡ false = ground (arith, c) in
    rw not_any (rw not_one (rw not_escape refl))

-- The pattern without its last byte, spelt so that `like` sees two bytes of it.
tail_step :
    (p : ℕ) (prefix s : Bytes)
    → p ≢ b'%'
    → p ≢ b'_'
    → p ≢ 92
    → like ((p ∷ prefix) ++ (b'%' ∷ [])) s ≡ this_byte p (like (prefix ++ (b'%' ∷ []))) s
tail_step p [] s a b c = like_step p b'%' [] s a b c
tail_step p (q ∷ prefix) s a b c = like_step p q (prefix ++ (b'%' ∷ [])) s a b c

cons-cong : {c d : ℕ} {s t : Bytes} → s ≡ t → c ≡ d → (c ∷ s) ≡ (d ∷ t)
cons-cong e q = cc

pub like_sound :
    (prefix s : Bytes)
    → IsLiteral prefix
    → like (prefix ++ (b'%' ∷ [])) s ≡ true
    → (rest : Bytes) × (s ≡ prefix ++ rest)
like_sound [] s _ e = (s, refl)
like_sound (p ∷ prefix) [] (a, b, c, lit) e = absurd (cc (sym (tail_step p prefix [] a b c) ∙ e))
like_sound (p ∷ prefix) (d ∷ s) (a, b, c, lit) e =
    let both : (d == p) && like (prefix ++ (b'%' ∷ [])) s ≡ true =
      sym (tail_step p prefix (d ∷ s) a b c) ∙ e in
    let (rest, q) = like_sound prefix s lit (ground (arith, both)) in
    (rest, cons-cong q (ground (arith, both)))

pub like_complete :
    (prefix rest : Bytes) → IsLiteral prefix → like (prefix ++ (b'%' ∷ [])) (prefix ++ rest) ≡ true
unfolding like
like_complete [] rest _ = some_suffix-no_bytes rest
like_complete (p ∷ prefix) rest (a, b, c, lit) =
    tail_step p prefix (p ∷ prefix ++ rest) a b c ∙ ground (arith, like_complete prefix rest lit)

-- On a DBMS that refuses nothing, with a path that has none of the bytes % _ \, the call removes exactly the locks whose lock root
-- begins with the bytes of the path, those of other resources with a longer name included.
pub remove_direct_locks_w_prefix-Removes :
    (db : Db) (prefix : Bytes) (l : LockRow)
    → IsLiteral prefix
    → let (r, s') = dbms_remove_direct_locks_w_prefix prefix (quiet db) in
      (r ≡ ok tt)
      × (In l s'.db.locks ↔ (In l db.locks × ¬ ((rest : Bytes) × (l.lockroot ≡ prefix ++ rest))))
unfolding dbms_remove_direct_locks_w_prefix update delete_locks
remove_direct_locks_w_prefix-Removes db prefix l lit =
    let matches = λ (x : LockRow). like (prefix ++ (b'%' ∷ [])) x.lockroot in
    let spared = λ (x : LockRow). not (matches x) in
    (
      refl,
      (
        (λ m.
            let (inside, kept) = In-keep spared l db.locks m in
            (
              inside,
              λ (rest, e).
                  let hit : matches l ≡ true = rw e (like_complete prefix rest lit) in
                  absurd (ground (arith, kept, hit)),
            )),
        (λ (inside, other). keep-In spared l db.locks inside (elim (Bool-cases (matches l)) [
          | inl hit ↦ absurd (other (like_sound prefix l.lockroot lit hit))
          | inr miss ↦ rw miss refl
        ])),
      ),
    )
