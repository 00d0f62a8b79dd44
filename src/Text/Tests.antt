-- ===== src/Text/Tests.antt =====
-- The text operations at concrete strings.
use langgraph_temporal_agent.Prelude.{◌≡◌, refl, true}
use langgraph_temporal_agent.Text.{codes, upper, lower, strip, decimal, format_03d, partition}

tests :
    (upper (codes "cus-001") ≡ codes "CUS-001")
    × (lower (codes "Theme") ≡ codes "theme")
    × (strip (codes "  a b ") ≡ codes "a b")
    × (decimal 120 ≡ codes "120")
    × (format_03d 4 ≡ codes "004")
    × (format_03d 1234 ≡ codes "1234")
    × (partition b':' (codes "a:b:c") ≡ (codes "a", true, codes "b:c"))
unfolding upper lower strip decimal format_03d partition
tests = (refl, refl, refl, refl, refl, refl, refl)
