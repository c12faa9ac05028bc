-- ===== src/Cli/Blacklist/Block.antt =====
-- What `block` and `unblock` do to the blacklist: every argument that parses takes effect, whatever
-- the others are.
use k_watch.Prelude.{
  ℕ, ◌≡◌, ◌≤◌, ◌+◌, suc, length, refl, ap, Option, none, some, List, [], ◌∷◌, Bool, true, false,
  ◌&&◌, ◌||◌, if◌then◌else◌, arith, String,
}
use k_watch.Prelude.Text.{Text, codes}
use k_watch.Util.Result.{Result, ok, err, is_ok}
use k_watch.Util.Ipv4.{parse_cidr}
use k_watch.Util.Ipv4.Cidr.{HasPrefix, parse_cidr-HasPrefix}
use k_watch.Bpf.UserMap.{UserMap}
use k_watch.Bpf.UserMap.LpmTrie.{IsLpmTrie, same_prefix, max_entries}
use k_watch.Cli.Blacklist.{
  LpmKey, Access, get_blacklist_fd, key_of, settle, block_arg, unblock_arg, arg_loop, cmd_block,
  cmd_unblock,
}

module _ (pton : Text → Option ℕ) where
  -- whether the argument parses to this key
  abbrev pub is_named : Result (ℕ × ℕ) → LpmKey → Bool
  is_named (err e) j = false
  is_named (ok r) j = same_prefix (key_of r) j

  abbrev pub named : LpmKey → List String → Bool
  named j [] = false
  named j (arg ∷ args) = is_named (parse_cidr pton (codes arg)) j || named j args

  abbrev pub all_parse : List String → Bool
  all_parse [] = true
  all_parse (arg ∷ args) = is_ok (parse_cidr pton (codes arg)) && all_parse args

  module _ (u : UserMap LpmKey ℕ) (laws : IsLpmTrie u) where
    -- What an argument does where `fits` allows for it: it leaves `w` at the prefix that it parses to,
    -- keeps all others, is done exactly if it parses, where `sure`, and leaves room for the rest.
    record Effect (f : u.Map → String → u.Map × Bool) (w : Option ℕ) (sure : Bool)
        (fits : ℕ → u.Map → Type 0) : Type 0 where
      sets :
          (m : u.Map) (arg : String) (j : LpmKey) (n : ℕ)
          → fits (suc n) m
          → laws.node (f m arg).0 j
            ≡ (if is_named (parse_cidr pton (codes arg)) j then w else laws.node m j)
      done :
          (m : u.Map) (arg : String) (n : ℕ)
          → fits (suc n) m
          → sure ≡ true
          → (f m arg).1 ≡ is_ok (parse_cidr pton (codes arg))
      fits_on : (m : u.Map) (arg : String) (n : ℕ) → fits (suc n) m → fits n (f m arg).0

    combine :
        (a b : Bool) (w x y z : Option ℕ)
        → z ≡ (if b then w else y)
        → y ≡ (if a then w else x)
        → z ≡ (if a || b then w else x)
    combine a b w x y z e h = ground (arith, e, h)

    module _ (f : u.Map → String → u.Map × Bool) (w : Option ℕ) (sure : Bool)
        (fits : ℕ → u.Map → Type 0) (h : Effect f w sure fits) where
      arg_loop-node :
          (m : u.Map) (args : List String) (b : Bool) (j : LpmKey)
          → fits (length args) m
          → laws.node (arg_loop pton u f m args b).0 j ≡ (if named j args then w else laws.node m j)
      unfolding arg_loop
      arg_loop-node m [] b j l = refl
      arg_loop-node m (arg ∷ args) b j l =
          combine (is_named (parse_cidr pton (codes arg)) j) (named j args) w (laws.node m j)
            (laws.node (f m arg).0 j) _
            (arg_loop-node (f m arg).0 args (b && (f m arg).1) j (h.fits_on m arg (length args) l))
            (h.sets m arg j (length args) l)

      arg_loop-all_ok :
          (m : u.Map) (args : List String) (b : Bool)
          → sure ≡ true
          → fits (length args) m
          → (arg_loop pton u f m args b).1 ≡ (b && all_parse args)
      unfolding arg_loop
      arg_loop-all_ok m [] b s l = ground arith
      arg_loop-all_ok m (arg ∷ args) b s l = ground (
        arith,
        arg_loop-all_ok (f m arg).0 args (b && (f m arg).1) s (h.fits_on m arg (length args) l),
        h.done m arg (length args) l s,
      )

    -- room for as many entries
    abbrev pub HasRoom : ℕ → u.Map → Type 0
    HasRoom n m = laws.size m + n ≤ max_entries

    -- an update of a prefix
    updated :
        (m : u.Map) (addr prefix : ℕ) (o : Option u.Map) (j : LpmKey) (n : ℕ)
        → u.update m (prefix, addr) 1 ≡ o
        → prefix ≤ 32
        → HasRoom (suc n) m
        → (laws.node (settle pton u m o).0 j
            ≡ (if same_prefix (prefix, addr) j then some 1 else laws.node m j))
          × (((settle pton u m o).1 ≡ true) × HasRoom n (settle pton u m o).0)
    updated m addr prefix none j n e le room =
        absurd (ground (arith, room, laws.update_fails m prefix addr 1 le e))
    updated m addr prefix (some m') j n e le room = (
      laws.node-update m m' (prefix, addr) j 1 e,
      (refl, omega (arith, room, laws.size-update m m' (prefix, addr) 1 e)),
    )

    abbrev block_parsed : u.Map → Result (ℕ × ℕ) → u.Map × Bool
    block_parsed m r = elim r as (λ r. u.Map × Bool) [
      | err e ↦ (m, false)
      | ok k ↦ settle pton u m (u.update m (key_of k) 1)
    ]

    block_parsed_lem :
        (m : u.Map) (r : Result (ℕ × ℕ)) (j : LpmKey) (n : ℕ)
        → HasPrefix r
        → HasRoom (suc n) m
        → (laws.node (block_parsed m r).0 j ≡ (if is_named r j then some 1 else laws.node m j))
          × (((block_parsed m r).1 ≡ is_ok r) × HasRoom n (block_parsed m r).0)
    block_parsed_lem m (err e) j n p room = (refl, (refl, omega (arith, room)))
    block_parsed_lem m (ok (addr, prefix)) j n p room =
        updated m addr prefix (u.update m (prefix, addr) 1) j n refl p room

    block_arg-Effect : Effect (block_arg pton u) (some 1) true HasRoom
    unfolding block_arg
    block_arg-Effect = record {
      sets = λ m arg j n room. (run m arg j n room).0;
      done = λ m arg n room s. (run m arg (0, 0) n room).1.0;
      fits_on = λ m arg n room. (run m arg (0, 0) n room).1.1;
    }
      where
        run :
            (m : u.Map) (arg : String) (j : LpmKey) (n : ℕ)
            → HasRoom (suc n) m
            → (laws.node (block_parsed m (parse_cidr pton (codes arg))).0 j
                ≡ (if is_named (parse_cidr pton (codes arg)) j then some 1 else laws.node m j))
              × (((block_parsed m (parse_cidr pton (codes arg))).1
                    ≡ is_ok (parse_cidr pton (codes arg)))
                  × HasRoom n (block_parsed m (parse_cidr pton (codes arg))).0)
        run m arg j n room =
            block_parsed_lem m (parse_cidr pton (codes arg)) j n
              (parse_cidr-HasPrefix pton (codes arg)) room

    deleted :
        (m : u.Map) (k j : LpmKey) (o : Option u.Map)
        → u.delete m k ≡ o
        → laws.node (settle pton u m o).0 j ≡ (if same_prefix k j then none else laws.node m j)
    deleted m k j none e = ground (arith, laws.delete_fails m k j e)
    deleted m k j (some m') e = laws.node-delete m m' k j e

    unblock_arg-Effect : Effect (unblock_arg pton u) none false (λ n m. Unit {0})
    unfolding unblock_arg
    unblock_arg-Effect = record {
      sets = λ m arg j n l. unblock_parsed m j (parse_cidr pton (codes arg));
      done = λ m arg n l s. cc;
      fits_on = λ m arg n l. tt;
    }
      where
        unblock_parsed :
            (m : u.Map) (j : LpmKey) (r : Result (ℕ × ℕ))
            → laws.node
                (elim r as (λ r. u.Map × Bool) [
                  | err e ↦ (m, false)
                  | ok k ↦ settle pton u m (u.delete m (key_of k))
                ]).0
                j
              ≡ (if is_named r j then none else laws.node m j)
        unblock_parsed m j (err e) = refl
        unblock_parsed m j (ok k) = deleted m (key_of k) j (u.delete m (key_of k)) refl

    -- block on an interface whose owner is alive and whose map opens, with at least one argument,
    -- where the trie has room for as many entries as there are arguments: the status is 0 if every
    -- argument parses and 65 if not; either way exactly the entries whose prefix some argument
    -- parses to are set to 1, whatever its bits past the prefix length, and the entries of all
    -- other prefixes are kept. The map behaves as the kernel documents of an LPM trie of 1024
    -- entries.
    pub cmd_block_lem :
        (a : Access) (if_name arg : String) (args : List String) (m : u.Map)
        → get_blacklist_fd a ≡ true
        → laws.size m + length (arg ∷ args) ≤ max_entries
        → ((cmd_block pton u a (if_name ∷ arg ∷ args) m).0
            ≡ (if all_parse (arg ∷ args) then 0 else 65))
          × ((j : LpmKey)
              → laws.node (cmd_block pton u a (if_name ∷ arg ∷ args) m).1 j
                ≡ (if named j (arg ∷ args) then some 1 else laws.node m j))
    unfolding cmd_block
    cmd_block_lem a if_name arg args m e room =
        rw (cmd_block, e)
          (
            ap (λ (b : Bool). if b then 0 else 65)
                (arg_loop-all_ok (block_arg pton u) (some 1) true HasRoom block_arg-Effect m
                  (arg ∷ args) true refl room),
            λ j.
                arg_loop-node (block_arg pton u) (some 1) true HasRoom block_arg-Effect m
                  (arg ∷ args) true j room,
          )

    -- unblock on an interface whose owner is alive and whose map opens, with at least one
    -- argument: afterwards no entry is there whose prefix some argument parses to, whatever its
    -- bits past the prefix length, and the entries of all other prefixes are kept, covering and
    -- covered ones too, also where some arguments do not parse or name no entry. The map behaves
    -- as the kernel documents of an LPM trie.
    pub cmd_unblock_lem :
        (a : Access) (if_name arg : String) (args : List String) (m : u.Map) (j : LpmKey)
        → get_blacklist_fd a ≡ true
        → laws.node (cmd_unblock pton u a (if_name ∷ arg ∷ args) m).1 j
          ≡ (if named j (arg ∷ args) then none else laws.node m j)
    unfolding cmd_unblock
    cmd_unblock_lem a if_name arg args m j e =
        rw (cmd_unblock, e)
          (arg_loop-node (unblock_arg pton u) none false (λ n m. Unit {0}) unblock_arg-Effect m
            (arg ∷ args) true j tt)
