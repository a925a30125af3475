-- ===== src/Http.antt =====
-- What an HTTP request of the observer or the client comes to.
use blindmarkets.Base.{ℕ, Bool, ◌&&◌, Text, leb, ltb}

-- No answer, or a status and a body.
pub data Reply : Type 0 where
  no_reply : Reply
  reply : (status : ℕ) (body : Text) → Reply

abbrev pub is_success : ℕ → Bool
is_success status = leb 200 status && ltb status 300

abbrev pub is_client_error : ℕ → Bool
is_client_error status = leb 400 status && ltb status 500

abbrev pub is_server_error : ℕ → Bool
is_server_error status = leb 500 status && ltb status 600
