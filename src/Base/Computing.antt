-- ===== src/Base/Computing.antt =====
-- What a test by evaluation opens: the operations on texts, dictionaries and lists.
use agentsecure_community.Base.Equality.{nat_eq}
use agentsecure_community.Base.Lists.{any, keep}
use agentsecure_community.Base.Dict.{values, keys, lookup, insert, erase}
use agentsecure_community.Base.Event.{emit}
use agentsecure_community.Base.Text.{
  lit, text_eq, lower, upper, lstrip, rstrip, strip, normal_host, starts_with, ends_with, has_sub,
  after_char, basename, decimal,
}

unfoldable pub computing : Unit {0}
unfolding lit text_eq nat_eq lower upper lstrip rstrip strip normal_host starts_with ends_with
    has_sub after_char basename decimal any keep values keys lookup insert erase emit
computing = tt
