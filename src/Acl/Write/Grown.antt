-- ===== src/Acl/Write/Grown.antt =====
-- The entries that are added to a resource: limestone/dbms_acl.c, lines 239-300.
use mathlib.Core.List.{append_assoc, append-nil}
use limestone.Prelude.{
  ℕ, ◌≡◌, refl, sym, ap, ◌∙◌, inl, inr, Bool, true, false, some, List, [], ◌∷◌, ◌++◌, In, In-append,
  append-In,
}
use limestone.Store.{AceRow, AcePrivilege, Db}
use limestone.Acl.Write.{Entry, inserted_ace, with_ace, ace_row}
use limestone.Acl.Write.Kept.{Holds}

-- Rows for entries, one each, in their order.
abbrev pub Written : ℕ → List Entry → List AceRow → Type 0
Written r [] [] = Unit {0}
Written r [] (a ∷ as') = ⊥
Written r (e ∷ es) [] = ⊥
Written r (e ∷ es) (a ∷ as') = (a ≡ ace_row a.id r e) × Written r es as'

abbrev put : Db → List AceRow → List AcePrivilege → Db
put db aces privileges = record db { aces = aces; dav_aces_privileges = privileges }

abbrev pub added : Db → List AceRow → List AcePrivilege → Db
added db rows more = put db (db.aces ++ rows) (db.dav_aces_privileges ++ more)

-- The entries are written behind the others, with privileges of theirs and of no other entry.
pub record Grown (r : ℕ) (es : List Entry) (rows : List AceRow) (db db' : Db) : Type 0 where
  pub more : List AcePrivilege
  pub written : Written r es rows
  pub whole : db' ≡ added db rows more
  pub owned : (x : AcePrivilege) → In x more → (a : AceRow) × In a rows × (x.ace_id ≡ a.id)

put_twice :
    (db : Db) (rows rows' : List AceRow) (more more' : List AcePrivilege)
    → added (added db rows more) rows' more' ≡ added db (rows ++ rows') (more ++ more')
put_twice db rows rows' more more' =
    ap (λ l. put db l ((db.dav_aces_privileges ++ more) ++ more')) (append_assoc db.aces rows rows')
    ∙ ap (put db (db.aces ++ (rows ++ rows'))) (append_assoc db.dav_aces_privileges more more')

pub Grown-none : (r : ℕ) (db : Db) → Grown r [] [] db db
Grown-none r db = record {
  more = [];
  written = tt;
  whole = sym (
      ap (λ l. put db l (db.dav_aces_privileges ++ [])) (append-nil db.aces)
      ∙ ap (put db db.aces) (append-nil db.dav_aces_privileges));
  owned = λ x m. elim m [ ];
}

Written-append :
    (r : ℕ) (es fs : List Entry) (l m : List AceRow)
    → Written r es l
    → Written r fs m
    → Written r (es ++ fs) (l ++ m)
Written-append r [] fs [] m w v = v
Written-append r [] fs (a ∷ l) m w v = elim w [ ]
Written-append r (e ∷ es) fs [] m w v = elim w [ ]
Written-append r (e ∷ es) fs (a ∷ l) m (q, w) v = (q, Written-append r es fs l m w v)

pub Grown-append :
    (r : ℕ) (es fs : List Entry) (rows rows' : List AceRow) (db db' db'' : Db)
    → Grown r es rows db db'
    → Grown r fs rows' db' db''
    → Grown r (es ++ fs) (rows ++ rows') db db''
Grown-append r es fs rows rows' db db' db'' g h = record {
  more = g.more ++ h.more;
  written = Written-append r es fs rows rows' g.written h.written;
  whole = h.whole ∙ ap (λ d. added d rows' h.more) g.whole ∙ put_twice db rows rows' g.more h.more;
  owned = λ x i. elim (In-append x g.more h.more i) [
    | inl j ↦ let (a, k, q) = g.owned x j in (a, append-In a rows rows' (inl k), q)
    | inr j ↦ let (a, k, q) = h.owned x j in (a, append-In a rows rows' (inr k), q)
  ];
}

pub with_ace-Grown :
    (r id : ℕ) (e : Entry) (db db' : Db)
    → with_ace (ace_row id r e) db ≡ some db'
    → db' ≡ record db { aces = db.aces ++ (ace_row id r e ∷ []) }
unfolding with_ace
with_ace-Grown r id e db db' q = go _ q
  where
    go :
        (b : Bool)
        → inserted_ace b (ace_row id r e) db ≡ some db'
        → db' ≡ record db { aces = db.aces ++ (ace_row id r e ∷ []) }
    go true q = absurd (cc q)
    go false q = cc q

pub entry-Grown :
    (r id : ℕ) (e : Entry) (db db' db'' : Db)
    → db' ≡ record db { aces = db.aces ++ (ace_row id r e ∷ []) }
    → Holds id db' db''
    → Grown r (e ∷ []) (ace_row id r e ∷ []) db db''
entry-Grown r id e db db' db'' q (more, f, own) = record {
  more = more;
  written = (refl, tt);
  whole = f ∙ ap (λ (d : Db). put d d.aces (d.dav_aces_privileges ++ more)) q;
  owned = λ x i. (ace_row id r e, inl refl, own x i);
}
