-- ===== src/Toolkit/Frontmatter/Mistakes.antt =====
-- Reading metadata, and the text behind them, makes no mistake.
use orochi.Prelude.{false, ◌≡◌, ap, inl, inr}
use orochi.Text.{Text}
use orochi.Toolkit.Checks.{Failure, ok, failed, or_fail, index_error}
use orochi.Toolkit.Frontmatter.{Meta, frontmatter}
use orochi.Toolkit.Claude.{agent_body}
use orochi.Toolkit.Mistakes.{is_mistake}
use orochi.Toolkit.Frontmatter.Errors.{frontmatter_cases}

pub frontmatter-no_mistake :
    (path t : Text) (e : Failure) → frontmatter path t ≡ failed e → is_mistake e ≡ false
frontmatter-no_mistake path t e h = elim (frontmatter_cases path t) [
  | inl (n, k) ↦ cc
  | inr (inl (y, n, k)) ↦ cc
  | inr (inr (y, m, parts, p, k)) ↦ cc
]

-- Where the metadata could be read, there is a text behind them.
pub agent_body-ok :
    (path t : Text) (m : Meta) (e : Failure)
    → frontmatter path t ≡ ok m
    → agent_body t ≡ failed e
    → is_mistake e ≡ false
unfolding agent_body
agent_body-ok path t m e h k = elim (frontmatter_cases path t) [
  | inl (n, i) ↦ cc
  | inr (inl (y, n, i)) ↦ cc
  | inr (inr (y, m', (a, (b, c)), p, i)) ↦ cc (k, ap (λ o. or_fail o index_error) p)
]
