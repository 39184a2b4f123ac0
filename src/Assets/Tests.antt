-- ===== src/Assets/Tests.antt =====
-- app/api/public.py: the theorems at names that are served.
use flyrank_capstone_widgetp.Base.{refl, true, All}
use flyrank_capstone_widgetp.Text.{codes}
use flyrank_capstone_widgetp.Config.{defaults}
use flyrank_capstone_widgetp.Assets.{Asset, widget_bundle}
use flyrank_capstone_widgetp.Assets.Names.{IsPlain, widget_bundle-IsPlain}

abbrev bundle : Asset
bundle = record {
  path = "widget.v1.js";
  media_type = "application/javascript; charset=utf-8";
  max_age = defaults.bundle_max_age;
  immutable = true;
}

widget_bundle-IsPlain_example : All IsPlain (codes "v1")
unfolding widget_bundle
widget_bundle-IsPlain_example = widget_bundle-IsPlain defaults (λ _. true) "v1" bundle refl

abbrev font : Asset
font = record {
  path = "fonts/inter-latin.woff2";
  media_type = "font/woff2";
  max_age = defaults.bundle_max_age;
  immutable = true;
}
