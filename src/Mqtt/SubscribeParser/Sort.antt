-- ===== src/Mqtt/SubscribeParser/Sort.antt =====
-- `std::sort` and `std::unique` on topic filters, as acatl_mqtt/mqtt_subscribe_parser.h calls them.
-- The sort is by insertion, stable; where the comparison orders the filters strictly and weakly,
-- every sort that the standard allows gives a list that differs in the order of equivalent filters
-- only.
use acatl.Base.{List, [], ◌∷◌, if◌then◌else◌}
use acatl.Mqtt.Packets.{TopicFilter}
use acatl.Mqtt.Topic.{filter_eq, filter_lt}

unfoldable pub insert_filter : TopicFilter → List TopicFilter → List TopicFilter
unfolding filter_lt
insert_filter f [] = f ∷ []
insert_filter f (g ∷ gs) =
    let further = g ∷ insert_filter f gs in if filter_lt f g then f ∷ g ∷ gs else further

unfoldable pub sort_onto : List TopicFilter → List TopicFilter → List TopicFilter
unfolding insert_filter
sort_onto sorted [] = sorted
sort_onto sorted (f ∷ fs) = sort_onto (insert_filter f sorted) fs

unfoldable pub sort_filters : List TopicFilter → List TopicFilter
unfolding sort_onto
sort_filters fs = sort_onto [] fs

-- `unique` keeps the first of each run of equal elements.
unfoldable pub unique_from : TopicFilter → List TopicFilter → List TopicFilter
unfolding filter_eq
unique_from f [] = f ∷ []
unique_from f (g ∷ gs) =
    let same = unique_from f gs in
    let differs = f ∷ unique_from g gs in if filter_eq f g then same else differs

unfoldable pub unique_filters : List TopicFilter → List TopicFilter
unfolding unique_from
unique_filters [] = []
unique_filters (f ∷ fs) = unique_from f fs
