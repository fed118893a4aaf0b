-- ===== src/Lib.antt =====
-- Limestone, a mod_dav repository (limestone/*.c) that keeps WebDAV resources in an SQL database.
--
-- A resource is a row of the table resources, and its names are binds: rows that name it in
-- a collection. URIs are looked up bind by bind from the root collection, and the URI of a resource is
-- found by searching upwards. Locks, quotas and the queue of the garbage collector are tables too.
--
-- Store (Store/*.antt) models the tables of limestone/create_postgres_full.sql that the modelled
-- statements touch, with the constraints and cascades that they rely on, and the calls that run
-- a statement. A function that runs statements takes a store, which is the database and a list that
-- says which of the next statements the DBMS refuses, and gives a result or an HTTP status with
-- the store that it leaves. A theorem about every store is therefore one about every sequence of
-- failures; `quiet db` is a store without failures.
--
-- Statement (Statement/*.antt) is the text of a statement and its parameters, limestone/dbms_dbd.c. In the
-- other modules a statement is a function on the database, and a text that limestone/dbms_dbd.c does not
-- send is a case of its own where a name can bring it about (Bind/Lookup).
--
-- Text (Text/*.antt) is the string handling of limestone/util.c and the lock tokens of limestone/lock.c.
-- Bind (Bind/*.antt) is limestone/dbms_bind.c: Bind/Rows the statements on single binds, Bind/Path
-- dbms_find_shortest_path and its proof, Bind/Lookup dbms_lookup_uri, Bind/PathBinds and Bind/Cleanup
-- the binds of a path and the queue. Bind/Path/Route says what a route is, which the search, the
-- lookup, the deletion and the collector are all measured by.
-- Lock (Lock/*.antt) is limestone/dbms_locks.c with hooks of limestone/lock.c and limestone/lock_bridge.c.
-- Bridge (Bridge/*.antt) is the deletion and the reverse lookup of limestone/bridge.c with the
-- statements of limestone/dbms.c, and a round of the loop of limestone/gc.c (Bridge/Collect).
-- Transaction is limestone/transaction.c with limestone/dbms_transaction.c and limestone/dbms_quota.c.
-- Principal (Principal/*.antt) is limestone/dbms_principal.c with limestone/principal.c: Principal/Group
-- groups and the table of their transitive members, whose specification is Principal/Group/Closure,
-- Principal/Domain domains, and Principal/User names and columns of users.
-- Versioning (Versioning/*.antt) is limestone/dbms_deltav.c with the handlers of limestone/version.c:
-- Versioning and Versioning/Write the statements, Versioning/Load what loading a resource runs,
-- Versioning/Begin putting a resource under version control, with limestone/deltav_bridge.c,
-- Versioning/Control the handlers, their steps and what they keep, and Versioning/Auto automatic
-- versioning.
-- Acl is the conflict checks of limestone/bridge.c, Acl/Allow the check of a privilege, Acl/Write
-- the setting of entries and Acl/Inherit the making of a path for a new resource, of
-- limestone/dbms_acl.c and limestone/acl.c. Names of functions are those of the C code.
-- Tests (Tests/*.antt) applies the theorems to a small server.
--
-- The do loop of the search runs on fuel, one round for each bind and one more, since each round but
-- the last reads a bind whose collection was not seen. All other loops are structural recursion.
-- Resource ids, sizes and times are natural numbers without a bound; the database's columns are
-- 64-bit and the server does no arithmetic on them that the schema does not check. Counts of paths
-- between groups are integers without a bound. Foreign keys of the tables of groups and versions are
-- not checked, since a transaction defers them to its commit.
--
-- Not modelled: apr_strtok and basename, which are arguments; apr_dbd_transaction_end, which is an
-- argument with its rollback of the tables as a hypothesis (sequences and the bodies on disk stay);
-- CHAR_LENGTH, an argument too; columns that are longer than the schema allows by trailing spaces
-- alone, which PostgreSQL cuts; the strings of principals, the names and namespaces of privileges
-- by their numbers, the sequence of entry ids, and the request's cache of privilege ids; the
-- properties of entries; sabridge_remove_vhr, an argument of the deletion; the making of histories
-- and of a version's resource and the copying of contents, which are arguments of the handlers with
-- what they leave alone as hypotheses; reports; inserting users; columns that no modelled function
-- reads; searches and live properties; and memory pools, since nothing is freed while it is used.
pub mod Prelude
pub mod Text
pub mod Store
pub mod Bind
pub mod Lock
pub mod Bridge
pub mod Acl
pub mod Transaction
pub mod Tests
pub mod Statement
pub mod Principal
pub mod Versioning
