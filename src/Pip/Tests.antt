-- ===== src/Pip/Tests.antt =====
-- The theorems about crates/kwokka-core/src/id at identifiers of worker 3.
use kwokka.Base.{ℕ, ◌+◌, ◌-◌, ◌%◌, ◌^◌, ◌*◌, ◌<◌, ◌≡◌, ◌≢◌, ◌⊎◌, refl, arith, true, none, some}
use kwokka.Pip.{depth, seq, worker_id, pack, issue, child, is_parent_of, is_ancestor_of}
use kwokka.Pip.Parts.{pack_parts, issue_unique, child_lem}

pack_parts_example :
    (seq (pack (2 ^ 48 + 5) 7 3) ≡ (2 ^ 48 + 5) % 2 ^ 48)
    × (depth (pack (2 ^ 48 + 5) 7 3) ≡ 7)
    × (worker_id (pack (2 ^ 48 + 5) 7 3) ≡ 3 % 2 ^ 38)
pack_parts_example = pack_parts (2 ^ 48 + 5) 7 3 (omega arith)

issue_unique_example : (◌≡◌ {A = ℕ} 3 3) × (◌≡◌ {A = ℕ} 9 9) × (issue 3 9 ≢ 0)
issue_unique_example =
    issue_unique 3 3 9 9 (omega arith) (omega arith) (omega arith) (omega arith) (omega arith) refl

-- The root that worker 3 issues with number 9.
abbrev nine : ℕ
nine = 9 * 2 ^ 80 + 12

nine-older : seq nine < 12
unfolding seq
nine-older = omega arith

child_lem_example :
    ((depth nine ≡ 2 ^ 16 - 1) × (child nine 12 ≡ (none, 12)))
    ⊎ ((q : ℕ) × (child nine 12 ≡ (some q, 12 + 1))
        × (depth q ≡ depth nine + 1)
        × (worker_id q ≡ worker_id nine)
        × (seq q ≡ 12)
        × (is_parent_of nine q ≡ true)
        × (is_ancestor_of nine q ≡ true))
child_lem_example = child_lem nine 12 nine-older (omega arith)
