-- ===== src/Workflows/Runs/Counts.antt =====
-- How many runs pass a test after the promotion of one.
use growth_operator.Workflows.Run.{Run}
use growth_operator.Workflows.Runs.{update_first}
use growth_operator.Prelude.{true, List, ◌∷◌, length, arith, ◌≡◌, filter, suc, Bool, ◌≤◌, []}

pub filter-update_first_le :
    (p live : Run → Bool) (f : Run → Run) (xs : List Run)
    → length (filter live (update_first p f xs)) ≤ suc (length (filter live xs))
unfolding update_first
filter-update_first_le p live f [] = omega arith
filter-update_first_le p live f (x ∷ xs) = ground (arith, filter-update_first_le p live f xs)

-- The row that changes is of another key.
pub filter-update_first_eq :
    (p live : Run → Bool) (f : Run → Run) (xs : List Run)
    → ((x : Run) → p x ≡ true → live (f x) ≡ true → live x ≡ true)
    → length (filter live (update_first p f xs)) ≤ length (filter live xs)
unfolding update_first
filter-update_first_eq p live f [] h = omega arith
filter-update_first_eq p live f (x ∷ xs) h =
    ground (arith, filter-update_first_eq p live f xs h, h x)
