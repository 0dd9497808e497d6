-- ===== src/Realtime/Channels.antt =====
-- Which channels are the same.
use ulov_backend.Prelude.{ℕ, ◌≡◌, ◌≢◌, [], ◌∷◌, ◌++◌, arith}
use ulov_backend.Prelude.Text.{Text, codes}
use ulov_backend.Realtime.{service_channel, center_channel, user_channel}

module _ (uuid_text : ℕ → Text)
    (text-injective : (i j : ℕ) → uuid_text i ≡ uuid_text j → i ≡ j) where
  drop_prefix : (p s t : Text) → p ++ s ≡ p ++ t → s ≡ t
  drop_prefix [] s t e = e
  drop_prefix (c ∷ p) s t e = drop_prefix p s t (ground (arith, e))

  pub service_channel-injective :
      (i j : ℕ) → service_channel uuid_text i ≡ service_channel uuid_text j → i ≡ j
  service_channel-injective i j e =
      text-injective i j (drop_prefix (codes "events:service:") (uuid_text i) (uuid_text j) e)

  pub center_channel-injective :
      (i j : ℕ) → center_channel uuid_text i ≡ center_channel uuid_text j → i ≡ j
  center_channel-injective i j e =
      text-injective i j (drop_prefix (codes "events:services:") (uuid_text i) (uuid_text j) e)

  pub user_channel-injective :
      (i j : ℕ) → user_channel uuid_text i ≡ user_channel uuid_text j → i ≡ j
  user_channel-injective i j e =
      text-injective i j (drop_prefix (codes "events:user:") (uuid_text i) (uuid_text j) e)

module _ (uuid_text : ℕ → Text) where
  pub service_center_apart : (i j : ℕ) → service_channel uuid_text i ≢ center_channel uuid_text j
  service_center_apart i j e = absurd (ground (arith, e))

  pub service_user_apart : (i j : ℕ) → service_channel uuid_text i ≢ user_channel uuid_text j
  service_user_apart i j e = absurd (ground (arith, e))

  pub center_user_apart : (i j : ℕ) → center_channel uuid_text i ≢ user_channel uuid_text j
  center_user_apart i j e = absurd (ground (arith, e))
