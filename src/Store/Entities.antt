-- ===== src/Store/Entities.antt =====
-- The rows of the TypeORM entities (src/entities) and of the tables that the migrations create.
-- An identifier or an amount is a natural number; `createdAt` columns that nothing modelled reads
-- are left out.
use marketplace_api.Prelude.{ℕ, Option, Text, Number}

-- src/auth/roles.ts
pub data UserRole : Type 0 where
  customer seller admin : UserRole

-- src/orders/order-status.ts
pub data OrderStatus : Type 0 where
  created pending paid packed shipped delivered cancelled : OrderStatus

pub record Product : Type 0 where
  pub id : ℕ
  pub name : Text
  pub price_cents : ℕ
  pub stock : ℕ
  pub currency : Text

pub record User : Type 0 where
  pub id : ℕ
  pub email : Text
  pub name : Text
  pub password_hash : Option Text
  pub role : UserRole
  pub balance_cents : ℕ

pub record Order : Type 0 where
  pub id : ℕ
  pub user_id : Option ℕ
  pub customer_email : Text
  pub status : OrderStatus
  pub total_cents : ℕ
  pub currency : Text

pub record OrderItem : Type 0 where
  pub order_id : ℕ
  pub product_id : ℕ
  pub quantity : ℕ
  pub price_at_purchase_cents : ℕ

pub record PostProcessingJob : Type 0 where
  pub order_id : ℕ
  pub status : Text
  pub worker : Option Text
  pub processed : ℕ

pub record IdempotencyKey : Type 0 where
  pub key : Text
  pub request_hash : Text
  pub order_id : Option ℕ

pub record ProcessedMessage : Type 0 where
  pub message_id : Text
  pub consumer : Text

pub record ProcessedOrderEvent : Type 0 where
  pub event_id : Text
  pub order_id : Number

pub record RefreshToken : Type 0 where
  pub id : ℕ
  pub user_id : ℕ
  pub family_id : Text
  pub token_hash : Text
  pub used_at : Option ℕ
  pub revoked_at : Option ℕ
  pub expires_at : ℕ
  pub family_started_at : ℕ
