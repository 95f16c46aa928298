-- ===== src/World/Extra/Items.antt =====
-- gtools/baked/items.py: the ids that gtools/core/growtopia/world.py names.
use gtools.Prelude.{ℕ}

abbrev pub well_of_love : ℕ
well_of_love = 10656

abbrev pub winterfest_calendar_2017 : ℕ
winterfest_calendar_2017 = 5318

abbrev pub guild_lock : ℕ
guild_lock = 5814

abbrev pub will_of_the_wild : ℕ
will_of_the_wild = 5712

abbrev pub golem_s_gift : ℕ
golem_s_gift = 10044

abbrev pub infinity_crown : ℕ
infinity_crown = 12958

abbrev pub data_starship_hull : ℕ
data_starship_hull = 6546
