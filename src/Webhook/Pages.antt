-- ===== src/Webhook/Pages.antt =====
-- The pages of the lists of endpoints and deliveries: the clamps of service.go and the offset of
-- repository.go. A page number is a natural; 0 stands for the numbers below 1.
use graaa_golang_auth_api.Common.{ℕ, ◌-◌, ◌*◌, ◌||◌, List, ltb, take, drop, if◌then◌else◌}

unfoldable pub clamp_page : ℕ → ℕ
clamp_page page = if ltb page 1 then 1 else page

unfoldable pub clamp_page_size : ℕ → ℕ
clamp_page_size page_size = if ltb page_size 1 || ltb 100 page_size then 20 else page_size

-- OFFSET and LIMIT on the rows in order.
unfoldable pub page_rows : {A : Type 0} → ℕ → ℕ → List A → List A
page_rows page page_size rows =
    take (clamp_page_size page_size) (drop ((clamp_page page - 1) * clamp_page_size page_size) rows)
