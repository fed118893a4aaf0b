-- ===== src/Tests/Groups.antt =====
-- Groups, domains and their witnesses.
use limestone.Prelude.{ℕ, pos, ◌≡◌, refl, not, some, [], ◌∷◌, length, keep, codes, ◌+◌, arith}
use limestone.Store.{
  TransitiveMember, Db, ok, err, quiet, internal_server_error, ◌>>◌, some_row, ignore_error, select,
  update,
}
use limestone.Principal.Group.{
  is_member, dbms_will_loop_prin_add_grp, sabridge_add_prin_to_grp, sabridge_rem_prin_frm_grp,
}
use limestone.Principal.Group.Closure.{Member, direct, through}
use limestone.Principal.Group.Loop.{IsSound, Foretells, will_loop_prin_add_grp-Foretells}
use limestone.Principal.Group.Add.{Added, add_prin_to_grp-Added}
use limestone.Principal.Group.Remove.{rem_prin_frm_grp_many}
use limestone.Principal.Domain.{
  dbms_get_domain_path, dbms_get_domain_map, dbms_set_domain_map, are_distinct,
}
use limestone.Principal.Domain.Www.{stripped, Searched, get_domain_path-Searched}
use limestone.Principal.Domain.Stored.{stored, get_domain_map-set_domain_map}
use limestone.Tests.Data.{sample_db}

abbrev pair : ℕ → ℕ → ℕ → TransitiveMember
pair g m n = record { transitive_group_id = g; transitive_member_id = m; transitive_count = pos n }

-- Principal 3 is in group 1.
abbrev one_db : Db
one_db = record sample_db {
  group_members = record { group_id = 1; member_id = 3 } ∷ [];
  transitive_group_members = pair 1 3 1 ∷ [];
}

no_members : {g m : ℕ} → ¬ Member [] g m
no_members (direct g m i) = elim i [ ]
no_members (through g x m i rest) = elim i [ ]

empty-IsSound : IsSound sample_db
unfolding some_row
empty-IsSound = record {
  closure = record {
    keys = λ g m. (λ h. absurd (cc h), λ k. absurd (no_members k));
    counts = λ r i. elim i [ ];
  };
  acyclic = λ x k. no_members k;
}

one-IsSound : IsSound one_db
unfolding sabridge_add_prin_to_grp some_row ignore_error select update
one-IsSound = (add_prin_to_grp-Added 1 3 (quiet sample_db) empty-IsSound).1

add_prin_to_grp_example : Added 3 4 one_db (sabridge_add_prin_to_grp 3 4 (quiet one_db))
add_prin_to_grp_example = add_prin_to_grp-Added 3 4 (quiet one_db) one-IsSound

will_loop_example : Foretells 3 1 one_db (dbms_will_loop_prin_add_grp 3 1 (quiet one_db))
will_loop_example = will_loop_prin_add_grp-Foretells 3 1 (quiet one_db) one-IsSound

-- Group 3 of group 1 has two members.
abbrev full_db : Db
full_db = record sample_db {
  group_members =
      record { group_id = 1; member_id = 3 }
      ∷ record { group_id = 3; member_id = 4 }
      ∷ record { group_id = 3; member_id = 5 }
      ∷ [];
  transitive_group_members = pair 1 3 1 ∷ pair 3 4 1 ∷ pair 1 4 1 ∷ pair 3 5 1 ∷ pair 1 5 1 ∷ [];
}

rem_prin_frm_grp_example : sabridge_rem_prin_frm_grp 1 3 (quiet full_db) ≡ (
  err internal_server_error,
  quiet
      (record full_db { group_members = keep (λ r. not (is_member 1 3 r)) full_db.group_members }),
)
unfolding some_row
rem_prin_frm_grp_example = rem_prin_frm_grp_many 1 3 full_db refl (omega arith)

abbrev domain_db : Db
domain_db = record sample_db {
  user_domains =
      record { id = 1; principal_id = 5; domain = codes "a.org"; path = codes "/web" } ∷ [];
}

domain_path_example :
    Searched
      (stripped (codes "www.a.org"))
      (length (codes "www.a.org") + 4)
      (quiet domain_db)
      (dbms_get_domain_path (codes "www.a.org") (quiet domain_db))
domain_path_example = get_domain_path-Searched (codes "www.a.org") (quiet domain_db)

domain_path_test :
    dbms_get_domain_path (codes "www.a.org") (quiet domain_db)
    ≡ (ok (some (codes "/home/joe/web")), quiet domain_db)
unfolding dbms_get_domain_path ignore_error select
domain_path_test = refl

domain_map_example :
    (dbms_set_domain_map length 5 (some ((codes "b.org", codes "/b") ∷ []))
        >> dbms_get_domain_map 5)
      (quiet domain_db)
    ≡ (
      ok (some ((codes "b.org", codes "/b") ∷ [])),
      quiet (stored 5 ((codes "b.org", codes "/b") ∷ []) domain_db),
    )
unfolding some_row are_distinct
domain_map_example =
    get_domain_map-set_domain_map length 5 (codes "b.org", codes "/b") [] domain_db refl refl refl
